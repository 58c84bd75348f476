-- ===== src/Api/Tokens.antt =====
-- `transferHandler` and `sweepHandler` of internal/api/transfer_handler.go, the bans of
-- internal/api/validator.go, and the steps with which a handler queues a job.
use Prim.Native.String.{◌++◌}
use eth_custodial.Prelude.{
  String, Bool, false, not, ◌||◌, Option, none, List, [], ◌∷◌, str_eq, if◌then◌else◌,
}
use eth_custodial.Jobs.{Job, JobArgs, token_transfer, token_sweep}
use eth_custodial.World.{M, pure, ◌>>=◌}
use eth_custodial.Runtime.{Env}
use eth_custodial.Pg
use eth_custodial.Api.Response.{
  Reply, ok_response, err_response, tracking, on_postgres, with_request,
}
use eth_custodial.Api.Requests.{TransferRequest, SweepRequest, valid_transfer, valid_sweep}

-- A key of a map whose keys are texts.
unfoldable pub is_key : String → List String → Bool
is_key s [] = false
is_key s (k ∷ ks) = str_eq s k || is_key s ks

abbrev pub pretium_address : String
pretium_address = "0x8005ee53E57aB11E11eAA4EFe07Ee3835Dc02F98"

abbrev pub pretium_allowed_tokens : List String
pretium_allowed_tokens =
    "0x765DE816845861e75A25fCA122bb6898B8B1282a" ∷ "0x48065fbBE25f71C9282ddf5e1cD6D6A887483D5e"
    ∷ "0xcebA9300f2b948710d2653dD7B07f33A8B32118C" ∷ []

-- A job that is inserted without options.
abbrev pub plain_job : JobArgs → Job
plain_job args = record { args = args; priority = none; max_attempts = none }

module _ (env : Env) where
  -- `isBannedToken`
  unfoldable pub is_banned_token : String → Bool
  is_banned_token token = is_key token env.banned_tokens

  -- `stopPretiumLeak`: true stops the transfer.
  unfoldable pub stop_pretium_leak : (to token : String) → Bool
  stop_pretium_leak to token =
      if not (env.equal_fold to pretium_address)
      then false
      else not (is_key token pretium_allowed_tokens)

  -- A job with a new tracking id, in the open transaction, and its commit.
  unfoldable pub queue_job : String → (String → JobArgs) → M Reply
  queue_job description args = Pg.moment env >>= λ t.
      on_postgres (Pg.insert_many_tx env (plain_job (args (env.new_uuid t)) ∷ [])) λ _.
        on_postgres (Pg.commit env) λ _. pure (ok_response description (tracking (env.new_uuid t)))

  abbrev pub no_account : String → Reply
  no_account account =
      err_response 404 ("Account " ++ (account ++ " does not exist or is not yet activated")) "E05"

  -- The same for an account, which has to be active.
  unfoldable pub queue_for : String → String → (String → JobArgs) → M Reply
  queue_for account description args =
      on_postgres (Pg.check_keypair env account)
        λ exists. if exists then queue_job description args else pure (no_account account)

  abbrev pub banned_token : String → Reply
  banned_token token = err_response 403 ("Not allowed to interact with token " ++ token) "E08"

  abbrev pub pretium_leak : String → Reply
  pretium_leak token =
      err_response 403
        ("Transfers of token " ++ (token ++ " to the Pretium address are not allowed")) "E10"

  abbrev pub transfer_args : TransferRequest → String → JobArgs
  transfer_args req tracking_id = token_transfer (record {
    tracking_id = tracking_id;
    from = req.from;
    to = req.to;
    token_address = req.token_address;
    amount = req.amount;
  })

  unfoldable pub transfer_valid : TransferRequest → M Reply
  transfer_valid req =
      if is_banned_token req.token_address
      then pure (banned_token req.token_address)
      else if stop_pretium_leak req.to req.token_address
      then pure (pretium_leak req.token_address)
      else on_postgres (Pg.begin env)
          (λ _. queue_for req.from "Transfer request successfully created" (transfer_args req))

  -- `transferHandler`
  unfoldable pub transfer_handler : Option TransferRequest → M Reply
  transfer_handler body = with_request (valid_transfer env) body transfer_valid

  abbrev pub sweep_args : SweepRequest → String → JobArgs
  sweep_args req tracking_id = token_sweep (record {
    tracking_id = tracking_id;
    from = req.from;
    to = req.to;
    token_address = req.token_address;
  })

  unfoldable pub sweep_valid : SweepRequest → M Reply
  sweep_valid req =
      if is_banned_token req.token_address
      then pure (banned_token req.token_address)
      else if stop_pretium_leak req.to req.token_address
      then pure (pretium_leak req.token_address)
      else on_postgres (Pg.begin env)
          (λ _. queue_for req.from "Sweep request successfully created" (sweep_args req))

  -- `sweepHandler`
  unfoldable pub sweep_handler : Option SweepRequest → M Reply
  sweep_handler body = with_request (valid_sweep env) body sweep_valid
