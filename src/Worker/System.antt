-- ===== src/Worker/System.antt =====
-- The workers that sign for the system account: internal/worker/account_create.go and
-- gas_refill.go.
use eth_custodial.Prelude.{none, [], ◌∷◌, if◌then◌else◌}
use eth_custodial.Prelude.Int.{pos, ltb_ℤ}
use eth_custodial.Jobs.{AccountCreateArgs, GasRefillArgs}
use eth_custodial.Store.Types.{account_register, gas_refill}
use eth_custodial.World.{M, pure, lift, ◌>>=◌, ◌>>◌}
use eth_custodial.Runtime.{Env, address}
use eth_custodial.Chain.{register, give_to, get_settings, call_next_time, call_check, encode, w3_a}
use eth_custodial.Pg
use eth_custodial.Worker.Signing.{private_key_of, sign_call, record_tx, announce, dispatch_job}

module _ (env : Env) where
  -- `AccountCreateWorker.Work`
  unfoldable pub account_create_work : AccountCreateArgs → M Unit
  account_create_work args = do
    Pg.begin env
    Pg.insert_key_pair env args.key_pair
    system ← Pg.load_master_signer_key env
    key ← lift (private_key_of env system.private)
    nonce ← Pg.acquire_nonce env system.public
    input ← lift (encode env register (address (env.hex_to_address args.key_pair.public) ∷ []))
    settings ← get_settings
    tx ← lift (
        sign_call env key env.custodial_proxy input (env.hex_to_address args.key_pair.public)
          settings nonce)
    otx ← record_tx env args.tracking_id account_register system.public nonce tx
    Pg.insert_many_tx env (dispatch_job args.tracking_id otx none ∷ [])
    announce env args.tracking_id
    Pg.commit env

  -- `GasRefillWorker.Work` after its two checks: a `giveTo` call signed by the system account.
  unfoldable pub give_gas : GasRefillArgs → M Unit
  give_gas args = do
    system ← Pg.load_master_signer_key env
    key ← lift (private_key_of env system.private)
    nonce ← Pg.acquire_nonce env system.public
    account ← lift (w3_a env args.address)
    input ← lift (encode env give_to (address account ∷ []))
    settings ← get_settings
    tx ←
        lift
          (sign_call env key env.gas_faucet input (env.hex_to_address system.public) settings nonce)
    otx ← record_tx env args.tracking_id gas_refill system.public nonce tx
    announce env args.tracking_id
    Pg.insert_many_tx env (dispatch_job args.tracking_id otx none ∷ [])
    Pg.commit env

  -- `GasRefillWorker.Work`: nothing is done before the faucet's next time, or without its check.
  unfoldable pub gas_refill_work : GasRefillArgs → M Unit
  gas_refill_work args = do
    Pg.begin env
    account ← lift (w3_a env args.address)
    next ← call_next_time env account
    t ← Pg.moment env
    if ltb_ℤ (pos (env.now t)) (env.int64 next)
        then pure tt
        else do allowed ← call_check env account; if allowed then give_gas args else pure tt
