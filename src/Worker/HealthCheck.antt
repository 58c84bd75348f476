-- ===== src/Worker/HealthCheck.antt =====
-- internal/worker/health_check.go: transactions that the chain has included without an event are
-- marked as succeeded.
use eth_custodial.Prelude.{
  ℕ, ◌+◌, Bool, true, false, ◌&&◌, Option, none, some, List, [], ◌∷◌, ltb, ◌==◌, if◌then◌else◌,
  keep,
}
use eth_custodial.Store.Types.{DispatchStatus, in_network, success}
use eth_custodial.Store.Tables.{Otx}
use eth_custodial.World.{M, pure, ignore_error, ◌>>=◌, ◌>>◌}
use eth_custodial.Runtime.{Env, Receipt}
use eth_custodial.Chain.{tick}
use eth_custodial.Pg

abbrev is_in_network : DispatchStatus → Bool
is_in_network in_network = true
is_in_network _ = false

-- `v.DispatchStatus == store.IN_NETWORK && time.Since(v.UpdatedAt) > time.Minute`
abbrev pub is_due : ℕ → Otx → Bool
is_due now v = is_in_network v.dispatch_status && ltb (v.updated_at + 60) now

-- A receipt that shows inclusion in a block with success: a failed fetch leaves a nil receipt.
abbrev pub is_included : Option (Option Receipt) → Bool
is_included none = false
is_included (some none) = false
is_included (some (some r)) = elim r.block_number [ none ↦ false | some _ ↦ r.status == 1 ]

module _ (env : Env) where
  unfoldable pub mark_success : Otx → M Unit
  mark_success v = do
    Pg.update_dispatch_tx_status env v.id success
    ignore_error (Pg.send env (record { tracking_id = v.tracking_id; status = success }))

  -- The loop over the receipts of the batch, which was called at the moment `t`.
  unfoldable pub mark_included : ℕ → List Otx → M Unit
  mark_included t [] = pure tt
  mark_included t (v ∷ vs) =
      let rest = mark_included t vs in
      if is_included (env.tx_receipt t v.tx_hash) then mark_success v >> rest else rest

  unfoldable pub check_batch : List Otx → M Unit
  check_batch [] = pure tt
  check_batch (v ∷ vs) = do t ← tick; mark_included t (v ∷ vs)

  unfoldable pub check_due : ℕ → List Otx → M Unit
  check_due t [] = pure tt
  check_due t (v ∷ vs) = do check_batch (keep (is_due (env.now t)) (v ∷ vs)); Pg.commit env

  -- `DispatchHealthCheckWorker.Work`
  unfoldable pub health_check_work : M Unit
  health_check_work = do
    Pg.begin env
    otx ← Pg.get_failed_otx env
    t ← Pg.moment env
    check_due t otx
