-- ===== src/Worker/Issue/Pools/Views.antt =====
-- Three transactions filed one after the other in the view of an open transaction.
use eth_custodial.Prelude.{ℕ, ◌+◌, ◌≡◌, refl, ◌∙◌, ap, arith, String, some, List, ◌∷◌, sym}
use eth_custodial.Store.Types.{OtxType, token_approve}
use eth_custodial.Store.Tables.{Db, OtxRow, DispatchRow, NonceRow}
use eth_custodial.Store.Results.{ok}
use eth_custodial.Store.Queries.{key_id, next_nonce_of, set_next_nonce, add_jobs}
use eth_custodial.Store.Queries.Inversion.{
  next_nonce_of-set_next_nonce, set_next_nonce-set_next_nonce,
}
use eth_custodial.Worker.Signing.{Recorded}
use eth_custodial.Worker.Issue.Filed.{IsFiled, Filed, with_filed, recorded_of, AfterRecord-Filed}
use eth_custodial.Worker.Issue.Calls.{AfterCall, recalled}
use eth_custodial.Worker.Issue.Pools.{Calls, pool_jobs, ThreeIssued}

next_nonce_of_own :
    (i m n : ℕ) (ns : List NonceRow)
    → next_nonce_of i ns ≡ some m
    → next_nonce_of i (set_next_nonce i n ns) ≡ some n
next_nonce_of_own i m n ns h = next_nonce_of-set_next_nonce i i m n ns h ∙ ground arith

key_id-with_filed :
    (pk : String) (i : ℕ) (o : OtxRow) (r : DispatchRow) (d : Db)
    → key_id pk (with_filed i o r d) ≡ key_id pk d
unfolding key_id
key_id-with_filed pk i o r d = refl

-- The transaction after one that was just filed has the same signer and the nonce after it.
following :
    {pk tracking_id : String} {t t' : OtxType} {x y : Recorded} (b d e : Db)
    → (f : Filed b pk tracking_id t x d) → (g : Filed d pk tracking_id t' y e)
    → (g.signer ≡ f.signer) × (g.row.nonce ≡ f.row.nonce + 1)
following {pk} b d e f g =
    let same_signer : ok (some g.signer) ≡ ok (some f.signer) =
      sym g.known
      ∙ ap (key_id pk) f.after
      ∙ key_id-with_filed pk f.signer f.row f.tracked b
      ∙ f.known in
    let signer : g.signer ≡ f.signer = cc in
    let nonce : some g.row.nonce ≡ some (f.row.nonce + 1) =
      sym g.current
      ∙ ap (λ i. next_nonce_of i d.noncestore) signer
      ∙ ap (λ v. next_nonce_of f.signer v.noncestore) f.after
      ∙ next_nonce_of_own f.signer f.row.nonce (f.row.nonce + 1) b.noncestore f.current in
    (signer, cc)

refiled :
    {i j n m : ℕ} {tracking_id : String} {t : OtxType} {o : OtxRow} {r : DispatchRow}
    → i ≡ j
    → n ≡ m
    → IsFiled i tracking_id t n o r
    → IsFiled j tracking_id t m o r
refiled {i} {j} {n} {m} {tracking_id} {t} {o} {r} e f h = rw (← e, ← f) h

-- The view of the transaction before the jobs are queued.
pub record Signed3 (c0 : Db) (pk tracking_id : String) (t : OtxType) (calls : Calls)
    (x y z : Recorded) (d : Db) : Type 0 where
  pub view1 : Db
  pub view2 : Db
  pub first : AfterCall c0 pk tracking_id token_approve calls.reset x view1
  pub second : AfterCall view1 pk tracking_id token_approve calls.approval y view2
  pub third : AfterCall view2 pk tracking_id t calls.action z d

three_filed :
    (i : ℕ) (o1 o2 o3 : OtxRow) (r1 r2 r3 : DispatchRow) (b : Db)
    → with_filed i o3 r3 (with_filed i o2 r2 (with_filed i o1 r1 b)) ≡ record b {
      noncestore = set_next_nonce i (o3.nonce + 1) b.noncestore;
      otx = o3 ∷ o2 ∷ o1 ∷ b.otx;
      dispatch = r3 ∷ r2 ∷ r1 ∷ b.dispatch;
    }
three_filed i o1 o2 o3 r1 r2 r3 b =
    ap
      (λ ns. record b {
        noncestore = ns;
        otx = o3 ∷ o2 ∷ o1 ∷ b.otx;
        dispatch = r3 ∷ r2 ∷ r1 ∷ b.dispatch;
      })
      (set_next_nonce-set_next_nonce i (o3.nonce + 1) (o2.nonce + 1) _
        ∙ set_next_nonce-set_next_nonce i (o3.nonce + 1) (o1.nonce + 1) b.noncestore)

pub record Queued3 (c0 : Db) (pk tracking_id : String) (t : OtxType) (calls : Calls) (d : Db)
    : Type 0 where
  pub reset : Recorded
  pub approval : Recorded
  pub action : Recorded
  pub before : Db
  pub signed : Signed3 c0 pk tracking_id t calls reset approval action before
  pub queued : d ≡ add_jobs (pool_jobs tracking_id pk reset approval action) before

pub Queued3-ThreeIssued :
    (pk tracking_id : String) (t : OtxType) (calls : Calls) (c0 c : Db)
    → Queued3 c0 pk tracking_id t calls c
    → ThreeIssued pk tracking_id t calls c0 c
Queued3-ThreeIssued pk tracking_id t calls c0 c q =
    let s = q.signed in
    let (f, own_f) =
      AfterRecord-Filed c0 pk tracking_id token_approve q.reset s.view1 s.first.recorded in
    let (g, own_g) =
      AfterRecord-Filed s.view1 pk tracking_id token_approve q.approval s.view2 s.second.recorded in
    let (h, own_h) =
      AfterRecord-Filed s.view2 pk tracking_id t q.action q.before s.third.recorded in
    let (signer_g, nonce_g) = following c0 s.view1 s.view2 f g in
    let (signer_h, nonce_h) = following s.view1 s.view2 q.before g h in
    let last : h.row.nonce ≡ f.row.nonce + 2 = omega (arith, nonce_g, nonce_h) in
    let above : h.row.nonce + 1 ≡ f.row.nonce + 3 = omega (arith, last) in
    let views =
      h.after
      ∙ ap (λ k. with_filed k h.row h.tracked s.view2) (signer_h ∙ signer_g)
      ∙ ap (with_filed f.signer h.row h.tracked) (
          g.after
          ∙ ap (λ k. with_filed k g.row g.tracked s.view1) signer_g
          ∙ ap (with_filed f.signer g.row g.tracked) f.after) in
    record {
      signer = f.signer;
      nonce = f.row.nonce;
      reset = f.row;
      approval = g.row;
      action = h.row;
      tracked_reset = f.tracked;
      tracked_approval = g.tracked;
      tracked_action = h.tracked;
      known = f.known;
      current = f.current;
      reset_filed = f.filed;
      approval_filed = refiled signer_g nonce_g g.filed;
      action_filed = refiled (signer_h ∙ signer_g) last h.filed;
      reset_call = recalled calls.reset f.row own_f f.same s.first.described;
      approval_call = recalled calls.approval g.row (sym nonce_g ∙ own_g) g.same s.second.described;
      action_call = recalled calls.action h.row (sym last ∙ own_h) h.same s.third.described;
      after =
          q.queued
          ∙ ap (λ x. add_jobs (pool_jobs tracking_id pk x q.approval q.action) q.before)
              (sym f.same)
          ∙ ap (λ y. add_jobs (pool_jobs tracking_id pk (recorded_of f.row) y q.action) q.before)
              (sym g.same)
          ∙ ap
              (λ z.
                add_jobs (pool_jobs tracking_id pk (recorded_of f.row) (recorded_of g.row) z)
                  q.before)
              (sym h.same)
          ∙ ap
              (add_jobs (
                pool_jobs tracking_id pk (recorded_of f.row) (recorded_of g.row)
                  (recorded_of h.row)))
              (views
                ∙ three_filed f.signer f.row g.row h.row f.tracked g.tracked h.tracked c0
                ∙ ap
                    (λ n. record c0 {
                      noncestore = set_next_nonce f.signer n c0.noncestore;
                      otx = h.row ∷ g.row ∷ f.row ∷ c0.otx;
                      dispatch = h.tracked ∷ g.tracked ∷ f.tracked ∷ c0.dispatch;
                    })
                    above);
    }
