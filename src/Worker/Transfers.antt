-- ===== src/Worker/Transfers.antt =====
-- The workers that sign for a custodial account: internal/worker/token_transfer.go,
-- token_sweep.go and generic_sign.go.
use eth_custodial.Prelude.{none, some, false, [], ◌∷◌}
use eth_custodial.Jobs.{TokenTransferArgs, TokenSweepArgs, GenericSignArgs}
use eth_custodial.Store.Types.{token_transfer, token_sweep, generic_sign}
use eth_custodial.Store.Results.{or_error, sign_failed}
use eth_custodial.World.{M, lift, ◌>>=◌, ◌>>◌}
use eth_custodial.Runtime.{Env, address, uint}
use eth_custodial.Chain.{transfer, sweep, get_settings, string_to_big_int, encode}
use eth_custodial.Pg
use eth_custodial.Worker.Signing.{
  private_key_of, sign_call, record_tx, announce, dispatch_job, gas_refill_job,
}

module _ (env : Env) where
  -- `TokenTransferWorker.Work`
  unfoldable pub token_transfer_work : TokenTransferArgs → M Unit
  token_transfer_work args = do
    Pg.begin env
    keypair ← Pg.load_private_key env args.from
    key ← lift (private_key_of env keypair.private)
    nonce ← Pg.acquire_nonce env args.from
    amount ← lift (string_to_big_int env args.amount false)
    input ← lift (encode env transfer (address (env.hex_to_address args.to) ∷ uint amount ∷ []))
    settings ← get_settings
    tx ← lift (
        sign_call env key (env.hex_to_address args.token_address) input
          (env.hex_to_address args.from) settings nonce)
    otx ← record_tx env args.tracking_id token_transfer args.from nonce tx
    Pg.insert_many_tx env (
        dispatch_job args.tracking_id otx (some 1)
        ∷ gas_refill_job args.tracking_id args.from 2
        ∷ [])
    announce env args.tracking_id
    Pg.commit env

  -- `TokenSweepWorker.Work`
  unfoldable pub token_sweep_work : TokenSweepArgs → M Unit
  token_sweep_work args = do
    Pg.begin env
    keypair ← Pg.load_private_key env args.from
    key ← lift (private_key_of env keypair.private)
    nonce ← Pg.acquire_nonce env args.from
    input ← lift (encode env sweep (address (env.hex_to_address args.to) ∷ []))
    settings ← get_settings
    tx ← lift (
        sign_call env key (env.hex_to_address args.token_address) input
          (env.hex_to_address args.from) settings nonce)
    otx ← record_tx env args.tracking_id token_sweep args.from nonce tx
    Pg.insert_many_tx env (dispatch_job args.tracking_id otx none ∷ [])
    announce env args.tracking_id
    Pg.commit env

  -- `GenericSignWorker.Work`
  unfoldable pub generic_sign_work : GenericSignArgs → M Unit
  generic_sign_work args = do
    Pg.begin env
    keypair ← Pg.load_private_key env args.from
    key ← lift (private_key_of env keypair.private)
    nonce ← Pg.acquire_nonce env args.from
    value ← lift (string_to_big_int env args.value false)
    settings ← get_settings
    tx ← lift (
        or_error
          (env.sign_new_tx key (record {
            nonce = nonce;
            to = some (env.hex_to_address args.to);
            value = value;
            input = env.from_hex args.input;
            gas = settings.gas_limit;
            gas_fee_cap = settings.gas_fee_cap;
            gas_tip_cap = settings.gas_tip_cap;
          }))
          sign_failed)
    otx ← record_tx env args.tracking_id generic_sign args.from nonce tx
    Pg.insert_many_tx env (
        dispatch_job args.tracking_id otx (some 1)
        ∷ gas_refill_job args.tracking_id args.from 2
        ∷ [])
    announce env args.tracking_id
    Pg.commit env
