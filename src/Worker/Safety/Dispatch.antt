-- ===== src/Worker/Safety/Dispatch.antt =====
-- The workers that sign nothing, worker/dispatch.go, retrier.go and health_check.go, keep the
-- invariant.
use eth_custodial.Prelude.{ℕ, String, refl, List, [], ◌∷◌, keep}
use eth_custodial.Jobs.{Job, DispatchArgs, RetrierArgs}
use eth_custodial.Store.Types.{DispatchStatus, in_network, success}
use eth_custodial.Store.Tables.{Otx, OtxRow}
use eth_custodial.Store.Results.{DispatchErr}
use eth_custodial.Store.Sound.{IsSound, IsBacked}
use eth_custodial.Store.Sound.Updates.{add_jobs-IsSound}
use eth_custodial.World.{M}
use eth_custodial.World.Hoare.{
  Still, Still-pure, Still-raise, Still-bind, Still-lift, Still-gets, Still-ignore_error, Hoare-if,
  Hoare-pure, Hoare-raise, weaken, ◌⨾◌,
}
use eth_custodial.Runtime.{Env}
use eth_custodial.Chain.{log_sent, call_send_raw_tx}
use eth_custodial.Jobs.{Bytes}
use eth_custodial.Pg
use eth_custodial.Pg.{now_committed}
use eth_custodial.Pg.Rules.{
  Still-external, Still-send, Still-moment, Still-get_otx_by_tracking_id, Still-get_failed_otx,
  Hoare-begin, Hoare-commit,
}
use eth_custodial.Pg.Safe.{Triple, steady, Triple-update_dispatch_tx_status}
use eth_custodial.Worker.DispatchError.{SendError, sent_ok, classified, unclassified, send_error}
use eth_custodial.Worker.Dispatch.{
  status_of_error, retrier_job, save_status, give_up_or_retry, after_send, dispatch_work, LoopEnd,
  returned, fell_through, loop_result, retry_loop, retry_all, retrier_work,
}
use eth_custodial.Worker.HealthCheck.{
  is_included, mark_success, mark_included, check_batch, check_due, health_check_work, is_due,
}
use eth_custodial.Worker.Safety.Steps.{Still-tick}

-- However the worker ends, the committed database is sound.
abbrev pub Safe : M Unit → Type 0
Safe m = Triple IsSound (λ _. Unit) m (λ _ _. Unit)

Still-log_sent : (raw : Bytes) → Still (log_sent raw)
unfolding log_sent
Still-log_sent raw = record { kept_committed = λ w. refl; kept_working = λ w. refl }

Triple-now_committed :
    (j : Job)
    → ((os : List OtxRow) → IsBacked os j)
    → Triple IsSound IsSound (now_committed j) (λ _. IsSound)
unfolding now_committed
Triple-now_committed j b = record {
  at = λ w p. (
    add_jobs-IsSound (j ∷ []) w.committed p.0 (b w.committed.otx, tt),
    add_jobs-IsSound (j ∷ []) w.working p.1 (b w.working.otx, tt),
  );
}

module _ (env : Env) where
  Triple-begin-IsSound : Triple IsSound (λ _. Unit) (Pg.begin env) (λ _. IsSound)
  Triple-begin-IsSound = Hoare-begin env (λ c w p. p.0) (λ c w p. (p.0, p.0))

  Triple-save_status :
      (args : DispatchArgs) (s : DispatchStatus)
      → Triple IsSound IsSound (save_status env args s) (λ _. IsSound)
  unfolding save_status
  Triple-save_status args s = Triple-update_dispatch_tx_status env args.otx_id s ⨾ λ _.
      steady (Still-ignore_error (Still-send env _)) ⨾ λ _.
      Hoare-commit env (λ c w p. p.0) (λ c w p. (p.1, p.1))

  Triple-insert_retrier :
      (tracking_id : String)
      → Triple IsSound IsSound (Pg.insert env (retrier_job tracking_id)) (λ _. IsSound)
  unfolding Pg.insert
  Triple-insert_retrier tracking_id =
      steady (Still-external env) ⨾ λ _. Triple-now_committed (retrier_job tracking_id) (λ os. tt)

  Triple-give_up_or_retry :
      (args : DispatchArgs) (e : DispatchErr)
      → Triple IsSound IsSound (give_up_or_retry env args e) (λ _ _. Unit)
  unfolding give_up_or_retry
  Triple-give_up_or_retry args e =
      Hoare-if _ (Hoare-raise _ (λ c w p. p.0))
        (Triple-insert_retrier args.tracking_id ⨾ λ _. Hoare-raise _ (λ c w p. p.0))

  Triple-after_send :
      (args : DispatchArgs) (e : SendError)
      → Triple IsSound IsSound (after_send env args e) (λ _ _. Unit)
  unfolding after_send
  Triple-after_send args sent_ok =
      weaken (λ c w p. p) (λ a c w p. (p.0, tt)) (Triple-save_status args in_network)
  Triple-after_send args (classified e) =
      Triple-save_status args (status_of_error e) ⨾ λ _. Triple-give_up_or_retry args e
  Triple-after_send args unclassified = Hoare-raise _ (λ c w p. p.0)

  pub Still-call_send_raw_tx : (raw : Bytes) → Still (call_send_raw_tx env raw)
  unfolding call_send_raw_tx
  Still-call_send_raw_tx raw =
      Still-bind Still-tick (λ t. Still-bind (Still-log_sent raw) (λ _. Still-gets _))

  pub dispatch_work-Safe : (args : DispatchArgs) → Safe (dispatch_work env args)
  unfolding dispatch_work
  dispatch_work-Safe args = Triple-begin-IsSound ⨾ λ _. steady (Still-lift _) ⨾ λ raw.
      steady (Still-call_send_raw_tx raw) ⨾ λ answer. Triple-after_send args (send_error answer)

  Still-loop_result : (e : LoopEnd) → Still (loop_result e)
  Still-loop_result returned = Still-pure tt
  Still-loop_result fell_through = Still-pure tt

  Still-retry_all : (otx : List Otx) → Still (retry_all env otx)
  unfolding retry_all
  Still-retry_all [] = Still-raise _
  Still-retry_all (v ∷ rest) = Still-loop_result (retry_loop (v ∷ rest))

  pub retrier_work-Safe : (args : RetrierArgs) → Safe (retrier_work env args)
  unfolding retrier_work
  retrier_work-Safe args = Hoare-begin env (λ c w p. p.0) (λ c w p. (p.0, tt)) ⨾ λ _.
      steady (Still-get_otx_by_tracking_id env args.tracking_id) ⨾ λ otx.
      steady (Still-retry_all otx)

  Triple-mark_success : (v : Otx) → Triple IsSound IsSound (mark_success env v) (λ _. IsSound)
  unfolding mark_success
  Triple-mark_success v = Triple-update_dispatch_tx_status env v.id success ⨾ λ _.
      steady (Still-ignore_error (Still-send env _))

  Triple-mark_included :
      (t : ℕ) (vs : List Otx) → Triple IsSound IsSound (mark_included env t vs) (λ _. IsSound)
  unfolding mark_included
  Triple-mark_included t [] = Hoare-pure tt (λ c w p. p)
  Triple-mark_included t (v ∷ vs) =
      Hoare-if (is_included (env.tx_receipt t v.tx_hash))
        (Triple-mark_success v ⨾ λ _. Triple-mark_included t vs) (Triple-mark_included t vs)

  Triple-check_batch : (vs : List Otx) → Triple IsSound IsSound (check_batch env vs) (λ _. IsSound)
  unfolding check_batch
  Triple-check_batch [] = Hoare-pure tt (λ c w p. p)
  Triple-check_batch (v ∷ vs) = steady Still-tick ⨾ λ t. Triple-mark_included t (v ∷ vs)

  Triple-check_due :
      (t : ℕ) (vs : List Otx) → Triple IsSound IsSound (check_due env t vs) (λ _ _. Unit)
  unfolding check_due
  Triple-check_due t [] = Hoare-pure tt (λ c w p. (p.0, tt))
  Triple-check_due t (v ∷ vs) = Triple-check_batch (keep (is_due (env.now t)) (v ∷ vs)) ⨾ λ _.
      Hoare-commit env (λ c w p. p.0) (λ c w p. (p.1, tt))

  pub health_check_work-Safe : Safe (health_check_work env)
  unfolding health_check_work
  health_check_work-Safe = Triple-begin-IsSound ⨾ λ _. steady (Still-get_failed_otx env) ⨾ λ otx.
      steady (Still-moment env) ⨾ λ t. Triple-check_due t otx
