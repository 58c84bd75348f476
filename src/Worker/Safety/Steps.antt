-- ===== src/Worker/Safety/Steps.antt =====
-- Triples of the steps that the signing workers share.
use eth_custodial.Prelude.{ℕ, String, List, ◌∷◌}
use mathlib.Core.Path.{refl}
use eth_custodial.Jobs.{Address, DispatchArgs}
use eth_custodial.Store.Types.{OtxType, pending}
use eth_custodial.Store.Tables.{Db}
use eth_custodial.World.Hoare.{
  Still, Still-bind, Still-lift, Still-gets, Still-ignore_error, ◌⨾◌, Hoare-pure,
}
use eth_custodial.Runtime.{Env}
use eth_custodial.Chain.{tick, get_settings, call_next_time, call_check}
use eth_custodial.Pg.Rules.{Still-send}
use eth_custodial.Pg.Safe.{
  Triple, steady, Holding, Issued, Triple-insert_otx, Triple-insert_dispatch_tx,
}
use eth_custodial.Worker.Signing.{Recorded, record_tx, announce}

pub Still-tick : Still tick
unfolding tick
Still-tick = record { kept_committed = λ w. refl; kept_working = λ w. refl }

pub Still-get_settings : Still get_settings
unfolding get_settings
Still-get_settings = Still-gets (λ w. w.gas)

-- The arguments of the dispatch job of a recorded transaction.
abbrev pub job_args : String → Recorded → DispatchArgs
job_args tracking_id r = record { tracking_id = tracking_id; otx_id = r.otx_id; raw_tx = r.raw_tx }

module _ (env : Env) where
  pub Still-call_next_time : (a : Address) → Still (call_next_time env a)
  unfolding call_next_time
  Still-call_next_time a = Still-bind Still-tick (λ _. Still-lift _)

  pub Still-call_check : (a : Address) → Still (call_check env a)
  unfolding call_check
  Still-call_check a = Still-bind Still-tick (λ _. Still-lift _)

  pub Still-announce : (tracking_id : String) → Still (announce env tracking_id)
  unfolding announce
  Still-announce tracking_id = Still-ignore_error (Still-send env _)

  -- A transaction that is signed with the nonce in hand is recorded, and the nonce is used up.
  pub Triple-record_tx :
      {E : Db → Type 0} {txs : List DispatchArgs} (tracking_id : String) (t : OtxType)
      (signer : String) (n : ℕ) (tx : env.Tx)
      → Triple E
          (Holding signer n txs)
          (record_tx env tracking_id t signer n tx)
          (λ r. Issued (job_args tracking_id r ∷ txs))
  unfolding record_tx
  Triple-record_tx tracking_id t signer n tx = steady (Still-lift _) ⨾ λ raw.
      Triple-insert_otx env _ ⨾ λ id.
      Triple-insert_dispatch_tx env pending ⨾ λ _. Hoare-pure _ (λ c w p. p)
