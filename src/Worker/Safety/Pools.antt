-- ===== src/Worker/Safety/Pools.antt =====
-- The workers of worker/pool_swap.go and pool_deposit.go keep the invariant: three nonces in a
-- row, each used up before the next is taken.
use eth_custodial.Prelude.{String, List, ◌∷◌}
use eth_custodial.Jobs.{DispatchArgs, PoolSwapArgs, PoolDepositArgs}
use eth_custodial.Store.Tables.{Db}
use eth_custodial.World.{GasSettings}
use eth_custodial.World.Hoare.{Still-lift, Hoare-pure, ◌⨾◌}
use eth_custodial.Runtime.{Env}
use eth_custodial.Pg.Rules.{Still-load_private_key}
use eth_custodial.Pg.Safe.{
  Triple, Finishes, steady, Issued, Triple-begin, Finishes-commit, Triple-acquire_nonce,
  Triple-insert_many_tx,
}
use eth_custodial.Worker.Signing.{Recorded}
use eth_custodial.Worker.Pools.{
  reset_approval, set_approval, initiate_swap, initiate_deposit, finish_pool, pool_swap_work,
  pool_deposit_work,
}
use eth_custodial.Worker.Safety.Steps.{
  Still-get_settings, Still-announce, Triple-record_tx, job_args,
}
use eth_custodial.Worker.Safety.Signers.{Atomic}

module _ (env : Env) where
  Triple-reset_approval :
      {E : Db → Type 0} {txs : List DispatchArgs} (tracking_id from token pool : String)
      (key : env.PrivateKey) (settings : GasSettings)
      → Triple E
          (Issued txs)
          (reset_approval env tracking_id from token pool key settings)
          (λ r. Issued (job_args tracking_id r ∷ txs))
  unfolding reset_approval
  Triple-reset_approval tracking_id from token pool key settings =
      Triple-acquire_nonce env from ⨾ λ nonce. steady (Still-lift _) ⨾ λ input.
      steady (Still-lift _) ⨾ λ tx. Triple-record_tx env tracking_id _ from nonce tx ⨾ λ otx.
      steady (Still-announce env tracking_id) ⨾ λ _. Hoare-pure otx (λ c w p. p)

  Triple-set_approval :
      {E : Db → Type 0} {txs : List DispatchArgs} (tracking_id from token pool amount : String)
      (key : env.PrivateKey) (settings : GasSettings)
      → Triple E
          (Issued txs)
          (set_approval env tracking_id from token pool amount key settings)
          (λ r. Issued (job_args tracking_id r ∷ txs))
  unfolding set_approval
  Triple-set_approval tracking_id from token pool amount key settings =
      Triple-acquire_nonce env from ⨾ λ nonce. steady (Still-lift _) ⨾ λ bumped.
      steady (Still-lift _) ⨾ λ input. steady (Still-lift _) ⨾ λ tx.
      Triple-record_tx env tracking_id _ from nonce tx ⨾ λ otx.
      steady (Still-announce env tracking_id) ⨾ λ _. Hoare-pure otx (λ c w p. p)

  Triple-initiate_swap :
      {E : Db → Type 0} {txs : List DispatchArgs} (args : PoolSwapArgs) (key : env.PrivateKey)
      (settings : GasSettings)
      → Triple E
          (Issued txs)
          (initiate_swap env args key settings)
          (λ r. Issued (job_args args.tracking_id r ∷ txs))
  unfolding initiate_swap
  Triple-initiate_swap args key settings = Triple-acquire_nonce env args.from ⨾ λ nonce.
      steady (Still-lift _) ⨾ λ amount. steady (Still-lift _) ⨾ λ input.
      steady (Still-lift _) ⨾ λ tx. Triple-record_tx env args.tracking_id _ args.from nonce tx

  Triple-initiate_deposit :
      {E : Db → Type 0} {txs : List DispatchArgs} (args : PoolDepositArgs) (key : env.PrivateKey)
      (settings : GasSettings)
      → Triple E
          (Issued txs)
          (initiate_deposit env args key settings)
          (λ r. Issued (job_args args.tracking_id r ∷ txs))
  unfolding initiate_deposit
  Triple-initiate_deposit args key settings = Triple-acquire_nonce env args.from ⨾ λ nonce.
      steady (Still-lift _) ⨾ λ amount. steady (Still-lift _) ⨾ λ input.
      steady (Still-lift _) ⨾ λ tx. Triple-record_tx env args.tracking_id _ args.from nonce tx

  Finishes-finish_pool :
      {c0 : Db} {txs : List DispatchArgs} (tracking_id from : String) (a b c : Recorded)
      → Finishes c0
          (Issued (job_args tracking_id c ∷ job_args tracking_id b ∷ job_args tracking_id a ∷ txs))
          (finish_pool env tracking_id from a b c)
  unfolding finish_pool
  Finishes-finish_pool tracking_id from a b c =
      Triple-insert_many_tx env _ (λ d r. (r.1.1.0, (r.1.0, (r.0, (tt, tt))))) ⨾ λ _.
      steady (Still-announce env tracking_id) ⨾ λ _. Finishes-commit env

  pub pool_swap_work-Atomic : (args : PoolSwapArgs) → Atomic (pool_swap_work env args)
  unfolding pool_swap_work
  pool_swap_work-Atomic args c0 = Triple-begin env ⨾ λ _.
      steady (Still-load_private_key env args.from) ⨾ λ keypair. steady (Still-lift _) ⨾ λ key.
      steady Still-get_settings ⨾ λ settings.
      Triple-reset_approval args.tracking_id args.from args.from_token_address args.pool_address key
        settings
      ⨾ λ a.
          Triple-set_approval args.tracking_id args.from args.from_token_address args.pool_address
            args.amount key settings
          ⨾ λ b. Triple-initiate_swap args key settings ⨾ λ c.
              Finishes-finish_pool args.tracking_id args.from a b c

  pub pool_deposit_work-Atomic : (args : PoolDepositArgs) → Atomic (pool_deposit_work env args)
  unfolding pool_deposit_work
  pool_deposit_work-Atomic args c0 = Triple-begin env ⨾ λ _.
      steady (Still-load_private_key env args.from) ⨾ λ keypair. steady (Still-lift _) ⨾ λ key.
      steady Still-get_settings ⨾ λ settings.
      Triple-reset_approval args.tracking_id args.from args.token_address args.pool_address key
        settings
      ⨾ λ a.
          Triple-set_approval args.tracking_id args.from args.token_address args.pool_address
            args.amount key settings
          ⨾ λ b. Triple-initiate_deposit args key settings ⨾ λ c.
              Finishes-finish_pool args.tracking_id args.from a b c
