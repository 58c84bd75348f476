-- ===== src/Worker/Dispatch/Outcome.antt =====
-- What a run of `DisptachWorker.Work` leaves behind when the database and NATS answer: one result
-- for each answer of the chain.
use eth_custodial.Prelude.{
  ℕ, suc, ◌≡◌, refl, ◌∙◌, Bool, true, false, none, some, List, [], ◌∷◌, ◌++◌, if◌then◌else◌, ◌⊎◌,
  inl, inr, ap,
}
use eth_custodial.Jobs.{Bytes, DispatchArgs, Job}
use eth_custodial.Store.Types.{
  DispatchStatus, in_network, network_error, no_gas, low_gas_price, low_nonce,
  replacement_underpriced, is_status_type,
}
use eth_custodial.Store.Tables.{Db}
use eth_custodial.Store.Results.{
  DispatchErr, insufficient_gas, gas_price_too_low, nonce_too_low, replacement_tx_underpriced,
  Result, ok, err, dispatch_error, job_cancel, unknown_send_error, network,
}
use eth_custodial.Store.Queries.{has_dispatch, set_status, add_jobs}
use eth_custodial.Store.Statuses.{set_status_own, status_of}
use eth_custodial.World.{World, ◌>>=◌, raise, lift, gets}
use eth_custodial.Runtime.{Env, CallError, call_errors}
use eth_custodial.Chain.{call_send_raw_tx, tick, log_sent}
use eth_custodial.Worker.DispatchError.{
  SendError, sent_ok, classified, unclassified, send_error, handle_json_rpc_error,
}
use eth_custodial.Worker.Dispatch.{
  status_of_error, retrier_job, is_network, save_status, give_up_or_retry, after_send,
  dispatch_work,
}
use eth_custodial.Pg.Steps.{step, update_step, send_step, commit_step, begin_step, insert_step}

-- The status is set, the event is out, and the transaction is committed.
abbrev saved : DispatchArgs → DispatchStatus → World → World
saved args s w =
    let d = record w.working {
      dispatch = set_status args.otx_id w.began_at s w.working.dispatch;
    } in
    record w {
      working = d;
      committed = d;
      clock = suc (suc (suc w.clock));
      events = w.events ++ record { tracking_id = args.tracking_id; status = s } ∷ [];
    }

module _ (env : Env) (calm : (t : ℕ) → env.fails t ≡ false) (args : DispatchArgs) where
  save_status_step :
      (s : DispatchStatus) (w : World)
      → has_dispatch args.otx_id w.working.dispatch ≡ true
      → is_status_type s ≡ true
      → save_status env args s w ≡ (ok tt, saved args s w)
  unfolding save_status
  save_status_step s w h t =
      step _ _ (update_step env calm args.otx_id s w h t)
      ∙ step _ _ (send_step env calm _ _)
      ∙ commit_step env calm _

-- What an answer of the chain means for the job, for the transaction's status, and for the queue.
abbrev pub answer_result : SendError → Result Unit
answer_result sent_ok = ok tt
answer_result (classified network) = err (dispatch_error network)
answer_result (classified e) = err (job_cancel e)
answer_result unclassified = err unknown_send_error

abbrev marked : ℕ → ℕ → DispatchStatus → Db → Db
marked now i s d = record d { dispatch = set_status i now s d.dispatch }

abbrev pub after_answer : DispatchArgs → ℕ → SendError → Db → Db
after_answer args now sent_ok d = marked now args.otx_id in_network d
after_answer args now (classified network) d = marked now args.otx_id network_error d
after_answer args now (classified insufficient_gas) d =
    add_jobs (retrier_job args.tracking_id ∷ []) (marked now args.otx_id no_gas d)
after_answer args now (classified gas_price_too_low) d =
    add_jobs (retrier_job args.tracking_id ∷ []) (marked now args.otx_id low_gas_price d)
after_answer args now (classified nonce_too_low) d =
    add_jobs (retrier_job args.tracking_id ∷ []) (marked now args.otx_id low_nonce d)
after_answer args now (classified replacement_tx_underpriced) d =
    add_jobs (retrier_job args.tracking_id ∷ []) (marked now args.otx_id replacement_underpriced d)
after_answer args now unclassified d = d

-- How a run ends for the answer `a`, from the committed database `c`.
record Delivered (args : DispatchArgs) (now : ℕ) (a : SendError) (c : Db) (raws : List Bytes)
    (r : Result Unit × World) : Type 0 where
  result : r.0 ≡ answer_result a
  database : r.1.committed ≡ after_answer args now a c
  handed_over : r.1.sent ≡ raws

abbrev inserted : Job → World → World
inserted j w = record w {
  clock = suc w.clock;
  committed = add_jobs (j ∷ []) w.committed;
  working = add_jobs (j ∷ []) w.working;
}

module _ (env : Env) (calm : (t : ℕ) → env.fails t ≡ false) (args : DispatchArgs) where
  cancelled :
      (e : DispatchErr) (w : World)
      → has_dispatch args.otx_id w.working.dispatch ≡ true
      → is_status_type (status_of_error e) ≡ true
      → is_network e ≡ false
      → after_send env args (classified e) w ≡ (
        err (job_cancel e),
        inserted (retrier_job args.tracking_id) (saved args (status_of_error e) w),
      )
  unfolding after_send give_up_or_retry raise
  cancelled e w h t n =
      step _ _ (save_status_step env calm args _ w h t) ∙ rw n (step _ _ (insert_step env calm _ _))

  Delivered-after_send :
      (a : SendError) (w : World)
      → has_dispatch args.otx_id w.working.dispatch ≡ true
      → w.committed ≡ w.working
      → Delivered args w.began_at a w.working w.sent (after_send env args a w)
  unfolding after_send give_up_or_retry raise is_status_type
  Delivered-after_send sent_ok w h c =
      rw (save_status_step env calm args in_network w h refl)
        (record { result = refl; database = refl; handed_over = refl })
  Delivered-after_send (classified network) w h c =
      rw (step _ _ (save_status_step env calm args network_error w h refl))
        (record { result = refl; database = refl; handed_over = refl })
  Delivered-after_send (classified insufficient_gas) w h c =
      rw (cancelled insufficient_gas w h refl refl)
        (record { result = refl; database = refl; handed_over = refl })
  Delivered-after_send (classified gas_price_too_low) w h c =
      rw (cancelled gas_price_too_low w h refl refl)
        (record { result = refl; database = refl; handed_over = refl })
  Delivered-after_send (classified nonce_too_low) w h c =
      rw (cancelled nonce_too_low w h refl refl)
        (record { result = refl; database = refl; handed_over = refl })
  Delivered-after_send (classified replacement_tx_underpriced) w h c =
      rw (cancelled replacement_tx_underpriced w h refl refl)
        (record { result = refl; database = refl; handed_over = refl })
  Delivered-after_send unclassified w h c = record {
    result = refl;
    database = c;
    handed_over = refl;
  }

-- The world in which the answer is looked at.
abbrev asked : Env → Bytes → World → World
asked env raw w = record w {
  clock = suc (suc w.clock);
  working = w.committed;
  began_at = env.now (suc w.clock);
  sent = raw ∷ w.sent;
}

-- When no call of the database or of NATS fails, the raw transaction decodes and the transaction
-- has a dispatch row, `DisptachWorker.Work` hands the transaction to the chain once, and the
-- answer decides: it sets the status of the transaction that belongs to the answer, queues a
-- retrier job for the errors of the chain and for no other, and returns the result that makes the
-- queue try again, cancel the job or complete it.
pub dispatch_work_lem :
    (env : Env) (args : DispatchArgs) (raw : Bytes) (w : World)
    → ((t : ℕ) → env.fails t ≡ false)
    → env.hex_decode args.raw_tx ≡ some raw
    → has_dispatch args.otx_id w.committed.dispatch ≡ true
    → let answer = send_error (env.send_raw_tx (suc w.clock) raw) in
      let run = dispatch_work env args w in
      (run.0 ≡ answer_result answer)
      × (run.1.committed ≡ after_answer args (env.now (suc w.clock)) answer w.committed)
      × (run.1.sent ≡ raw ∷ w.sent)
unfolding dispatch_work call_send_raw_tx tick log_sent gets lift ◌>>=◌
dispatch_work_lem env args raw w calm h k =
    let d =
      Delivered-after_send env calm args (send_error (env.send_raw_tx (suc w.clock) raw))
        (asked env raw w) k refl in
    rw (begin_step env calm w, h) (d.result, d.database, d.handed_over)

send_error_unknown :
    (e : CallError)
    → (e.is_rpc_error ≡ false) ⊎ (handle_json_rpc_error e.message ≡ none)
    → send_error (call_errors e) ≡ sent_ok
unfolding send_error
send_error_unknown e (inl h) = rw h refl
send_error_unknown e (inr h) = rw h (same e.is_rpc_error)
  where
    same : (b : Bool) → (if b then sent_ok else sent_ok) ≡ sent_ok
    same true = refl
    same false = refl

-- Under the same conditions, when the chain refuses the transaction with an error that is no
-- `rpc.Error` or whose text `handleJSONRPCError` does not know, the job completes as if the
-- transaction had been accepted, and the transaction's status is IN_NETWORK.
pub dispatch_work_unknown_refusal :
    (env : Env) (args : DispatchArgs) (raw : Bytes) (e : CallError) (w : World)
    → ((t : ℕ) → env.fails t ≡ false)
    → env.hex_decode args.raw_tx ≡ some raw
    → has_dispatch args.otx_id w.committed.dispatch ≡ true
    → env.send_raw_tx (suc w.clock) raw ≡ call_errors e
    → (e.is_rpc_error ≡ false) ⊎ (handle_json_rpc_error e.message ≡ none)
    → ((dispatch_work env args w).0 ≡ ok tt)
      × (status_of args.otx_id (dispatch_work env args w).1.committed.dispatch ≡ some in_network)
dispatch_work_unknown_refusal env args raw e w calm h k q u =
    let (result, database, _) = dispatch_work_lem env args raw w calm h k in
    let quiet : send_error (env.send_raw_tx (suc w.clock) raw) ≡ sent_ok =
      ap send_error q ∙ send_error_unknown e u in
    (
      result ∙ ap answer_result quiet,
      ap (λ d. status_of args.otx_id d.dispatch)
            (database ∙ ap (λ a. after_answer args (env.now (suc w.clock)) a w.committed) quiet)
          ∙ set_status_own args.otx_id (env.now (suc w.clock)) in_network w.committed.dispatch k,
    )
