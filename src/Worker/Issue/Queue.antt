-- ===== src/Worker/Issue/Queue.antt =====
-- The end of a job that signs a transaction: its jobs are queued, and the view is published.
use eth_custodial.Prelude.{ℕ, ◌≡◌, ◌∙◌, ap, String, List, sym}
use eth_custodial.Jobs.{Job}
use eth_custodial.Store.Types.{OtxType}
use eth_custodial.Store.Tables.{Db}
use eth_custodial.Store.Results.{ok, ok_injective}
use eth_custodial.Store.Queries.{add_jobs}
use eth_custodial.World.Hoare.{Hoare, ◌⨾◌}
use eth_custodial.Runtime.{Env}
use eth_custodial.Pg
use eth_custodial.Pg.Rules.{Still-external, Hoare-write, Hoare-commit}
use eth_custodial.Pg.Safe.{Triple, steady}
use eth_custodial.Worker.Signing.{Recorded}
use eth_custodial.Worker.Issue.{OneIssued}
use eth_custodial.Worker.Issue.Calls.{AfterCall, recalled}
use eth_custodial.Worker.Issue.Filed.{AfterRecord-Filed, with_filed}

-- The view just before the commit.
pub record Queued (c0 : Db) (pk tracking_id : String) (t : OtxType) (call : ℕ → String → Type 0)
    (jobs : Recorded → List Job) (d : Db) : Type 0 where
  before : Db
  recorded : Recorded
  after_call : AfterCall c0 pk tracking_id t call recorded before
  queued : d ≡ add_jobs (jobs recorded) before

Queued-OneIssued :
    (pk tracking_id : String) (t : OtxType) (call : ℕ → String → Type 0)
    (jobs : Recorded → List Job) (c0 c : Db)
    → Queued c0 pk tracking_id t call jobs c
    → OneIssued pk tracking_id t call jobs c0 c
Queued-OneIssued pk tracking_id t call jobs c0 c q =
    let (f, same_nonce) =
      AfterRecord-Filed c0 pk tracking_id t q.recorded q.before q.after_call.recorded in
    record {
      signer = f.signer;
      row = f.row;
      tracked = f.tracked;
      known = f.known;
      current = f.current;
      row_signer = f.filed.row_signer;
      row_tracking_id = f.filed.row_tracking_id;
      row_type = f.filed.row_type;
      described = recalled call f.row same_nonce f.same q.after_call.described;
      tracked_otx = f.filed.tracked_otx;
      tracked_status = f.filed.tracked_status;
      after =
          q.queued
          ∙ ap (add_jobs (jobs q.recorded)) f.after
          ∙ ap (λ x. add_jobs (jobs x) (with_filed f.signer f.row f.tracked c0)) (sym f.same);
    }

module _ (env : Env) (c0 : Db) {pk tracking_id : String} {t : OtxType}
    {call : ℕ → String → Type 0} where
  pub Queued-insert_many_tx :
      (jobs : Recorded → List Job) (r : Recorded)
      → Triple
          (λ c. c ≡ c0)
          (AfterCall c0 pk tracking_id t call r)
          (Pg.insert_many_tx env (jobs r))
          (λ _. Queued c0 pk tracking_id t call jobs)
  unfolding Pg.insert_many_tx
  Queued-insert_many_tx jobs r = steady (Still-external env) ⨾ λ _.
      Hoare-write (λ w d. ok (add_jobs (jobs r) d)) (λ c w p. p.0)
        λ w c d d' p h. (
          p.0,
          record { before = d; recorded = r; after_call = p.1; queued = sym (ok_injective h) },
        )

module _ (env : Env) (c0 : Db) where
  pub Queued-commit :
      {pk tracking_id : String} {t : OtxType} {call : ℕ → String → Type 0}
      {jobs : Recorded → List Job}
      → Hoare
          (λ c. c ≡ c0)
          (λ c w. (c ≡ c0) × Queued c0 pk tracking_id t call jobs w)
          (Pg.commit env)
          (λ _ c w. OneIssued pk tracking_id t call jobs c0 c)
  Queued-commit = Hoare-commit env (λ c w p. p.0) (λ c w p. Queued-OneIssued _ _ _ _ _ c0 w p.1)
