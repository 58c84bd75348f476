-- ===== src/Worker/Pools.antt =====
-- The pool workers: internal/worker/pool_swap.go and pool_deposit.go. Each signs three
-- transactions of one account: an approval of 0, an approval of the amount plus 5%, and the call.
use eth_custodial.Prelude.{String, true, false, some, [], ◌∷◌}
use eth_custodial.Prelude.Int.{pos}
use eth_custodial.Jobs.{PoolSwapArgs, PoolDepositArgs}
use eth_custodial.Store.Types.{token_approve, pool_swap, pool_deposit}
use eth_custodial.World.{M, GasSettings, pure, lift, ◌>>=◌, ◌>>◌}
use eth_custodial.Runtime.{Env, address, uint}
use eth_custodial.Chain.{approve, withdraw, deposit, get_settings, string_to_big_int, encode}
use eth_custodial.Pg
use eth_custodial.Worker.Signing.{
  private_key_of, sign_call, record_tx, announce, dispatch_job, gas_refill_job, Recorded,
}

module _ (env : Env) where
  -- "Reset approval -> 0"
  unfoldable pub reset_approval :
      String → String → String → String → env.PrivateKey → GasSettings → M Recorded
  reset_approval tracking_id from token pool key settings = do
    nonce ← Pg.acquire_nonce env from
    input ← lift (encode env approve (address (env.hex_to_address pool) ∷ uint (pos 0) ∷ []))
    tx ← lift (
        sign_call env key (env.hex_to_address token) input (env.hex_to_address from) settings nonce)
    otx ← record_tx env tracking_id token_approve from nonce tx
    announce env tracking_id
    pure otx

  -- "Set approval -> amount + 5%"
  unfoldable pub set_approval :
      String → String → String → String → String → env.PrivateKey → GasSettings → M Recorded
  set_approval tracking_id from token pool amount key settings = do
    nonce ← Pg.acquire_nonce env from
    bumped ← lift (string_to_big_int env amount true)
    input ← lift (encode env approve (address (env.hex_to_address pool) ∷ uint bumped ∷ []))
    tx ← lift (
        sign_call env key (env.hex_to_address token) input (env.hex_to_address from) settings nonce)
    otx ← record_tx env tracking_id token_approve from nonce tx
    announce env tracking_id
    pure otx

  -- "Initiate swap"
  unfoldable pub initiate_swap : PoolSwapArgs → env.PrivateKey → GasSettings → M Recorded
  initiate_swap args key settings = do
    nonce ← Pg.acquire_nonce env args.from
    amount ← lift (string_to_big_int env args.amount false)
    input ← lift (
        encode env withdraw (
          address (env.hex_to_address args.to_token_address)
          ∷ address (env.hex_to_address args.from_token_address)
          ∷ uint amount
          ∷ []))
    tx ← lift (
        sign_call env key (env.hex_to_address args.pool_address) input
          (env.hex_to_address args.from) settings nonce)
    record_tx env args.tracking_id pool_swap args.from nonce tx

  -- "Initiate swap" of the deposit worker, a `deposit` call
  unfoldable pub initiate_deposit : PoolDepositArgs → env.PrivateKey → GasSettings → M Recorded
  initiate_deposit args key settings = do
    nonce ← Pg.acquire_nonce env args.from
    amount ← lift (string_to_big_int env args.amount false)
    input ←
        lift
          (encode env deposit (address (env.hex_to_address args.token_address) ∷ uint amount ∷ []))
    tx ← lift (
        sign_call env key (env.hex_to_address args.pool_address) input
          (env.hex_to_address args.from) settings nonce)
    record_tx env args.tracking_id pool_deposit args.from nonce tx

  -- The three dispatch jobs, the gas refill, the event and the commit that end both workers.
  unfoldable pub finish_pool : String → String → Recorded → Recorded → Recorded → M Unit
  finish_pool tracking_id from reset approval call = do
    Pg.insert_many_tx env (
        dispatch_job tracking_id reset (some 1)
        ∷ dispatch_job tracking_id approval (some 2)
        ∷ dispatch_job tracking_id call (some 3)
        ∷ gas_refill_job tracking_id from 4
        ∷ [])
    announce env tracking_id
    Pg.commit env

  -- `PoolSwapWorker.Work`
  unfoldable pub pool_swap_work : PoolSwapArgs → M Unit
  pool_swap_work args = do
    Pg.begin env
    keypair ← Pg.load_private_key env args.from
    key ← lift (private_key_of env keypair.private)
    settings ← get_settings
    reset ←
        reset_approval args.tracking_id args.from args.from_token_address args.pool_address key
          settings
    approval ←
        set_approval args.tracking_id args.from args.from_token_address args.pool_address
          args.amount key settings
    call ← initiate_swap args key settings
    finish_pool args.tracking_id args.from reset approval call

  -- `PoolDepositWorker.Work`
  unfoldable pub pool_deposit_work : PoolDepositArgs → M Unit
  pool_deposit_work args = do
    Pg.begin env
    keypair ← Pg.load_private_key env args.from
    key ← lift (private_key_of env keypair.private)
    settings ← get_settings
    reset ←
        reset_approval args.tracking_id args.from args.token_address args.pool_address key settings
    approval ←
        set_approval args.tracking_id args.from args.token_address args.pool_address args.amount key
          settings
    call ← initiate_deposit args key settings
    finish_pool args.tracking_id args.from reset approval call
