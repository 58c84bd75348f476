-- ===== src/Api/Rpc.antt =====
-- `methodEthSendTransaction` of internal/api/jrpc.go: a transaction that is signed at once.
use eth_custodial.Prelude.{String, Option, none, some, List, [], ◌∷◌, if◌then◌else◌}
use eth_custodial.Store.Types.{generic_sign}
use eth_custodial.Store.Results.{or_error, bad_json, invalid_params, sign_failed}
use eth_custodial.World.{M, pure, raise, lift, ◌>>=◌, ◌>>◌}
use eth_custodial.Runtime.{Env}
use eth_custodial.Chain.{get_settings}
use eth_custodial.Pg
use eth_custodial.Worker.Signing.{private_key_of, record_tx, dispatch_job, gas_refill_job}
use eth_custodial.Api.Response.{Reply, ok_response, transaction_hash, on_postgres}
use eth_custodial.Api.Auth.{Session}

pub record SendTransactionParams : Type 0 where
  pub to : String
  pub from : String
  pub value : String
  pub data_ : String

-- The loop that puts the caller's own key in place of `From`.
unfoldable pub force_from : String → List SendTransactionParams → List SendTransactionParams
force_from pk [] = []
force_from pk (p ∷ ps) = record p { from = pk } ∷ force_from pk ps

-- A token of a service may sign for any account, any other for its own.
abbrev pub params_for : Session → List SendTransactionParams → List SendTransactionParams
params_for session params = if session.service then params else force_from session.public_key params

module _ (env : Env) where
  unfoldable pub finish_send : (hash : String) → M Reply
  finish_send hash = on_postgres (Pg.commit env) λ _. pure (ok_response "" (transaction_hash hash))

  -- The first set of parameters is the one that counts.
  unfoldable pub send_transaction : SendTransactionParams → M Reply
  send_transaction p = do
    Pg.begin env
    keypair ← Pg.load_private_key env p.from
    key ← lift (private_key_of env keypair.private)
    nonce ← Pg.acquire_nonce env p.from
    value ← lift (or_error (env.decode_big p.value) (invalid_params "Invalid value"))
    settings ← get_settings
    tx ← lift (
        or_error
          (env.sign_new_tx key (record {
            nonce = nonce;
            to = some (env.hex_to_address p.to);
            value = value;
            input = env.from_hex p.data_;
            gas = settings.gas_limit;
            gas_fee_cap = settings.gas_fee_cap;
            gas_tip_cap = settings.gas_tip_cap;
          }))
          sign_failed)
    t ← Pg.moment env
    otx ← record_tx env (env.new_uuid t) generic_sign p.from nonce tx
    on_postgres
        (Pg.insert_many_tx env (
          dispatch_job (env.new_uuid t) otx (some 1)
          ∷ gas_refill_job (env.new_uuid t) p.from 2
          ∷ []))
        (λ _. finish_send (env.tx_hash tx))

  abbrev pub send_first : List SendTransactionParams → M Reply
  send_first [] = raise (invalid_params "Atleast 1 param is required")
  send_first (p ∷ ps) = send_transaction p

  -- `methodEthSendTransaction`
  unfoldable pub eth_send_transaction : Session → Option (List SendTransactionParams) → M Reply
  eth_send_transaction session none = raise bad_json
  eth_send_transaction session (some params) = send_first (params_for session params)
