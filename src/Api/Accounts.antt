-- ===== src/Api/Accounts.antt =====
-- The handlers of internal/api/account_handler.go and system_handler.go.
use eth_custodial.Prelude.{ℕ, ◌-◌, String, Option}
use eth_custodial.Prelude.Int.{ℤ}
use eth_custodial.Jobs.{Address, account_create}
use eth_custodial.Store.Results.{or_error, unavailable, bad_key_generation}
use eth_custodial.World.{M, pure, lift, ◌>>=◌, ◌>>◌}
use eth_custodial.Runtime.{Env}
use eth_custodial.Chain.{tick}
use eth_custodial.Pg
use eth_custodial.Api.Response.{
  Reply, ok_response, new_account, account_status, system_info, on_postgres, with_request,
}
use eth_custodial.Api.Requests.{is_address}
use eth_custodial.Api.Tokens.{plain_job}

module _ (env : Env) where
  -- `accountCreateHandler`
  unfoldable pub account_create_handler : M Reply
  account_create_handler = do
    t ← Pg.moment env
    key_pair ← lift (or_error (env.generate_key_pair t) bad_key_generation)
    Pg.insert env
        (plain_job (account_create (record { tracking_id = env.new_uuid t; key_pair = key_pair })))
    pure (
        ok_response "Account creation request successfully created"
          (new_account key_pair.public (env.new_uuid t)))

  -- The two calls for an account's nonce and balance, which are one batch.
  unfoldable pub call_account : Address → M (ℕ × ℤ)
  call_account a = do
    t ← tick
    nonce ← lift (or_error (env.nonce_at t a) (unavailable t))
    balance ← lift (or_error (env.balance_at t a) (unavailable t))
    pure (nonce, balance)

  -- The nonce that is shown is the last one used, or 0.
  unfoldable pub account_status_valid : String → M Reply
  account_status_valid address = call_account (env.hex_to_address address) >>= λ (nonce, balance).
      Pg.begin env
      >> on_postgres (Pg.peek_nonce env address) λ internal_nonce.
        on_postgres (Pg.check_keypair env address) λ active. on_postgres (Pg.commit env) λ _. pure (
          ok_response "Custodial account status"
            (account_status balance (nonce - 1) internal_nonce active))

  -- `accountStatusHandler`
  unfoldable pub account_status_handler : Option String → M Reply
  account_status_handler param = with_request (is_address env) param account_status_valid

  -- `systemInfoHandler`
  unfoldable pub system_info_handler : M Reply
  system_info_handler = on_postgres (Pg.begin env) λ _.
      on_postgres (Pg.load_master_signer_key env) λ key.
        on_postgres (Pg.commit env)
          λ _. pure (ok_response "Current system information" (system_info key.public env.build))
