-- ===== src/Server/Journey.antt =====
-- The life of one transfer: the job of internal/worker/token_transfer.go, the dispatch jobs that
-- follow it (internal/worker/dispatch.go), and the tracker's message (internal/sub/handler.go).
use eth_custodial.Prelude.{
  ℕ, zero, suc, ◌≡◌, refl, ◌∙◌, ap, String, true, false, some, List, [], ◌∷◌, ◌++◌, arith,
}
use eth_custodial.Jobs.{Bytes, DispatchArgs, dispatch, token_transfer, TokenTransferArgs}
use eth_custodial.Store.Types.{DispatchStatus}
use eth_custodial.Store.Tables.{OtxRow, DispatchRow, Db}
use eth_custodial.Store.Results.{
  err, no_rows, insufficient_gas, gas_price_too_low, nonce_too_low, replacement_tx_underpriced,
  network,
}
use eth_custodial.Store.Queries.{has_dispatch, set_status}
use eth_custodial.Store.Selects.{get_otx_by_tx_hash}
use eth_custodial.Store.Selects.ByHash.{
  IsHashOf, get_otx_by_tx_hash_found, IsHashOf-recorded, IsHashOf-set_status,
}
use eth_custodial.Store.Statuses.{status_of, set_status_own}
use eth_custodial.World.{World}
use eth_custodial.Runtime.{Env, ChainEvent}
use eth_custodial.Worker.DispatchError.{SendError, sent_ok, classified, unclassified}
use eth_custodial.Worker.Dispatch.{dispatch_work}
use eth_custodial.Worker.Dispatch.Outcome.{after_answer, dispatch_work_lem}
use eth_custodial.Worker.Issue.Completion.{
  Transferable, new_row, transferred, transferred_db, new_tracked, token_transfer_run,
}
use eth_custodial.Sub.Settle.{final_status, NamesItsAccount, activated_keeps, process_event_settles}
use eth_custodial.Server.{work, job, report, act, history}

abbrev replicate : {A : Type 0} → ℕ → A → List A
replicate zero a = []
replicate (suc n) a = a ∷ replicate n a

-- The transactions are `os`; one of them, `i`, has the hash alone and is tracked.
record IsPosted (text : ℕ → String) (hash : String) (i : ℕ) (os : List OtxRow) (d : Db)
    : Type 0 where
  rows : d.otx ≡ os
  named : IsHashOf text hash i d
  tracked : has_dispatch i d.dispatch ≡ true

module _ (text : ℕ → String) (hash : String) (i : ℕ) (os : List OtxRow) where
  has_dispatch-set_status :
      (j now : ℕ) (s : DispatchStatus) (ds : List DispatchRow)
      → has_dispatch i (set_status j now s ds) ≡ has_dispatch i ds
  unfolding has_dispatch set_status
  has_dispatch-set_status j now s [] = refl
  has_dispatch-set_status j now s (r ∷ rs) = ground (arith, has_dispatch-set_status j now s rs)

  IsPosted-set_status :
      (j now : ℕ) (s : DispatchStatus) (d d' : Db)
      → d'.otx ≡ d.otx
      → d'.dispatch ≡ set_status j now s d.dispatch
      → IsPosted text hash i os d
      → IsPosted text hash i os d'
  IsPosted-set_status j now s d d' e f p = record {
    rows = e ∙ p.rows;
    named = IsHashOf-set_status text hash i j now s d d' e f p.named;
    tracked = ap (has_dispatch i) f ∙ has_dispatch-set_status j now s d.dispatch ∙ p.tracked;
  }

  IsPosted-after_answer :
      (args : DispatchArgs) (now : ℕ) (a : SendError) (d : Db)
      → IsPosted text hash i os d
      → IsPosted text hash i os (after_answer args now a d)
  IsPosted-after_answer args now sent_ok d p = IsPosted-set_status _ _ _ d _ refl refl p
  IsPosted-after_answer args now (classified network) d p =
      IsPosted-set_status _ _ _ d _ refl refl p
  IsPosted-after_answer args now (classified insufficient_gas) d p =
      IsPosted-set_status _ _ _ d _ refl refl p
  IsPosted-after_answer args now (classified gas_price_too_low) d p =
      IsPosted-set_status _ _ _ d _ refl refl p
  IsPosted-after_answer args now (classified nonce_too_low) d p =
      IsPosted-set_status _ _ _ d _ refl refl p
  IsPosted-after_answer args now (classified replacement_tx_underpriced) d p =
      IsPosted-set_status _ _ _ d _ refl refl p
  IsPosted-after_answer args now unclassified d p = p

shift : {A : Type 0} (k : ℕ) (a : A) (l : List A) → replicate k a ++ a ∷ l ≡ a ∷ replicate k a ++ l
shift zero a l = refl
shift (suc k) a l = ap (λ r. a ∷ r) (shift k a l)

-- However often the transaction is sent and whatever the node answers, it stays posted.
attempts-IsPosted :
    (env : Env) (args : DispatchArgs) (raw : Bytes) (hash : String) (os : List OtxRow) (k : ℕ)
    (w : World)
    → ((t : ℕ) → env.fails t ≡ false)
    → env.hex_decode args.raw_tx ≡ some raw
    → IsPosted env.int_text hash args.otx_id os w.committed
    → let w' = history env (replicate k (job (dispatch args))) w in
      IsPosted env.int_text hash args.otx_id os w'.committed × (w'.sent ≡ replicate k raw ++ w.sent)
unfolding history act work
attempts-IsPosted env args raw hash os zero w calm h p = (p, refl)
attempts-IsPosted env args raw hash os (suc k) w calm h p =
    let run = dispatch_work env args w in
    let (result, database, handed_over) = dispatch_work_lem env args raw w calm h p.tracked in
    let after : IsPosted env.int_text hash args.otx_id os run.1.committed =
      rw database (IsPosted-after_answer env.int_text hash args.otx_id os args _ _ w.committed p) in
    let (last, all) = attempts-IsPosted env args raw hash os k run.1 calm h after in
    (last, all ∙ ap (λ l. replicate k raw ++ l) handed_over ∙ shift k raw w.sent)

-- The dispatch job that a transfer queues.
abbrev pub transfer_dispatch :
    (env : Env) (args : TokenTransferArgs) (w : World) → Transferable env args w → DispatchArgs
transfer_dispatch env args w r = record {
  tracking_id = args.tracking_id;
  otx_id = w.otx_seq;
  raw_tx = env.hex_encode r.raw;
}

module _ (env : Env) (calm : (t : ℕ) → env.fails t ≡ false) where
  -- What the tracker's report makes of a posted transaction.
  report_settles :
      (subject : String) (msg : Bytes) (e : ChainEvent) (i : ℕ) (os : List OtxRow) (w : World)
      → env.unmarshal_event msg ≡ some e
      → NamesItsAccount subject e
      → IsPosted env.int_text e.tx_hash i os w.committed
      → let w' = act env (report subject msg) w in
        (status_of i w'.committed.dispatch ≡ some (final_status e.success))
        × (w'.committed.otx ≡ os)
  unfolding act
  report_settles subject msg e i os w u a p =
      let (otx, found, same) =
        get_otx_by_tx_hash_found env.int_text e.tx_hash i w.committed p.named in
      let (result, database) =
        process_event_settles env subject msg e otx w calm u a found (rw same p.tracked) in
      let (otxs, rows) = activated_keeps subject e w.committed in
      (
        rw (database, same)
            (set_status_own i _ (final_status e.success) _ (ap (has_dispatch i) rows ∙ p.tracked)),
        ap (λ d. d.otx) database ∙ otxs ∙ p.rows,
      )

IsPosted-transferred :
    (env : Env) (args : TokenTransferArgs) (w : World) (r : Transferable env args w)
    → has_dispatch w.otx_seq w.committed.dispatch ≡ false
    → get_otx_by_tx_hash env.int_text (env.tx_hash r.tx) w.committed ≡ err no_rows
    → IsPosted env.int_text
        (env.tx_hash r.tx)
        w.otx_seq
        (new_row env args w r ∷ w.committed.otx)
        (transferred_db env args w r)
unfolding has_dispatch
IsPosted-transferred env args w r new q = record {
  rows = refl;
  named =
      IsHashOf-recorded env.int_text (new_row env args w r) (new_tracked env args w r) w.committed
        (transferred_db env args w r) refl refl refl r.new_otx new q;
  tracked = ground arith;
}

act-transferred :
    (env : Env) (args : TokenTransferArgs) (w : World) (r : Transferable env args w)
    → ((t : ℕ) → env.fails t ≡ false)
    → act env (job (token_transfer args)) w ≡ transferred env args w r
unfolding act work
act-transferred env args w r calm = ap (λ x. x.1) (token_transfer_run env calm args w r)

-- A transfer that can be signed, under a hash and an id that are new to the tables, reaches its
-- final status when no call fails: the job completes and queues the dispatch; however often the
-- dispatch job then runs, and whatever the node answers, the same raw transaction is sent each
-- time and the transaction stays recorded; and with the tracker's report of its hash its status is
-- SUCCESS where the report is of success, and REVERTED where it is not. The report need not name an
-- account, unless it is of a custodial registration that succeeded.
pub transfer_settles :
    (env : Env) (args : TokenTransferArgs) (subject : String) (msg : Bytes) (e : ChainEvent) (k : ℕ)
    (w : World) (r : Transferable env args w)
    → ((t : ℕ) → env.fails t ≡ false)
    → env.hex_decode (env.hex_encode r.raw) ≡ some r.raw
    → has_dispatch w.otx_seq w.committed.dispatch ≡ false
    → get_otx_by_tx_hash env.int_text (env.tx_hash r.tx) w.committed ≡ err no_rows
    → env.unmarshal_event msg ≡ some e
    → NamesItsAccount subject e
    → e.tx_hash ≡ env.tx_hash r.tx
    → let signed = act env (job (token_transfer args)) w in
      let posted =
        history env (replicate k (job (dispatch (transfer_dispatch env args w r)))) signed in
      let settled = act env (report subject msg) posted in
      (signed.committed ≡ transferred_db env args w r)
      × (posted.sent ≡ replicate k r.raw ++ w.sent)
      × (status_of w.otx_seq settled.committed.dispatch ≡ some (final_status e.success))
      × (settled.committed.otx ≡ new_row env args w r ∷ w.committed.otx)
transfer_settles env args subject msg e k w r calm h new q u a same =
    let start = IsPosted-transferred env args w r new q in
    let (posted, sent) =
      attempts-IsPosted env (transfer_dispatch env args w r) r.raw (env.tx_hash r.tx)
        (new_row env args w r ∷ w.committed.otx) k (transferred env args w r) calm h start in
    let (final, rows) =
      report_settles env calm subject msg e w.otx_seq (new_row env args w r ∷ w.committed.otx)
        (history env (replicate k (job (dispatch (transfer_dispatch env args w r))))
          (transferred env args w r))
        u a (rw same posted) in
    rw (act-transferred env args w r calm) (refl, sent, final, rows)
