-- ===== src/Api/Safety/Queued.antt =====
-- The steps with which a handler queues a job, and what an accepted request leaves in the
-- database.
use eth_custodial.Prelude.{ℕ, ◌≡◌, refl, String, Bool, true, Option, none, some, [], ◌∷◌}
use eth_custodial.Jobs.{JobArgs}
use eth_custodial.Store.Tables.{Db}
use eth_custodial.Store.Results.{ok}
use eth_custodial.Store.Queries
use eth_custodial.Store.Queries.{add_jobs}
use eth_custodial.World.{M, pure}
use eth_custodial.World.Hoare.{Hoare, ◌⨾◌, still, Hoare-pure, weaken}
use eth_custodial.Runtime.{Env}
use eth_custodial.Pg
use eth_custodial.Pg.Rules.{Still-external, Still-moment, Hoare-begin, Hoare-commit, Hoare-write}
use eth_custodial.Pg.Safe.{Both}
use eth_custodial.Store.Results.{ok_injective}
use eth_custodial.Api.Response.{Reply, Payload, tracking, ok_response, err_response, on_postgres}
use eth_custodial.Api.Requests.{}
use eth_custodial.Api.Tokens.{plain_job, queue_job, queue_for}
use eth_custodial.Api.Pools.{}
use eth_custodial.Api.Contracts.{}
use eth_custodial.Api.Safety.Rules.{
  Is, Hoare-on_postgres, Hoare-if_eq, Hoare-known, Hoare-check_keypair,
}

-- What a request asks for: whether the rules let it pass, the account that has to be active, and
-- the job.
pub record Ask : Type 0 where
  pub allowed : Bool
  pub account : Option String
  pub args : String → JobArgs

abbrev pub IsActive : Option String → Db → Type 0
IsActive none d = Unit
IsActive (some account) d = Queries.check_keypair account d ≡ true

-- The request was let in, and its job, with the tracking id of the answer, is all that is new.
pub record Queued (ask : Ask) (c0 : Db) (p : Payload) (c : Db) : Type 0 where
  pub allowed : ask.allowed ≡ true
  pub active : IsActive ask.account c0
  pub tracking_id : String
  pub answer : p ≡ tracking tracking_id
  pub after : c ≡ add_jobs (plain_job (ask.args tracking_id) ∷ []) c0

abbrev pub Post : Ask → Db → Reply → Db → Type 0
Post ask c0 (ok_response d p) c = Queued ask c0 p c
Post ask c0 (err_response s d x) c = Is c0 c

abbrev pub Asks : Ask → M Reply → Type 0
Asks ask m = (c0 : Db) → Hoare (Is c0) (Both (Is c0) (λ _. Unit)) m (λ r c w. Post ask c0 r c)

is_active :
    (account : String) (exists : Bool) (d : Db)
    → exists ≡ Queries.check_keypair account d
    → exists ≡ true
    → Queries.check_keypair account d ≡ true
is_active account exists d h e = cc

module _ (env : Env) where
  pub Hoare-queue_job :
      {c0 : Db} (ask : Ask) (description : String)
      → ask.allowed ≡ true
      → IsActive ask.account c0
      → Hoare
          (Is c0)
          (Both (Is c0) (Is c0))
          (queue_job env description ask.args)
          (λ r c w. Post ask c0 r c)
  unfolding queue_job Pg.insert_many_tx
  Hoare-queue_job {c0} ask description h a = still (λ c w p. p.0) (Still-moment env) ⨾ λ t.
      let js = plain_job (ask.args (env.new_uuid t)) ∷ [] in
      Hoare-on_postgres {Q = λ _. Both (Is c0) (Is (add_jobs js c0))} (λ s d x c v p. p)
        (still (λ c w p. p.0) (Still-external env) ⨾ λ _.
          Hoare-write (λ w d. ok (add_jobs js d)) (λ c w p. p.0)
            λ w c d d' p e. (p.0, rw (← ok_injective e, p.1) refl))
        λ _.
          Hoare-on_postgres {Q = λ _ c w. Is (add_jobs js c0) c} (λ s d x c v p. p)
            (Hoare-commit env (λ c w p. p.0) (λ c w p. p.1))
            λ _. Hoare-pure _ (λ c w p. record {
              allowed = h;
              active = a;
              tracking_id = env.new_uuid t;
              answer = refl;
              after = p;
            })

  pub Hoare-queue_for :
      {c0 : Db} (account : String) (ask : Ask) (description : String)
      → ask.allowed ≡ true
      → ask.account ≡ some account
      → Hoare
          (Is c0)
          (Both (Is c0) (Is c0))
          (queue_for env account description ask.args)
          (λ r c w. Post ask c0 r c)
  unfolding queue_for
  Hoare-queue_for {c0} account ask description h a =
      Hoare-on_postgres {Q = λ b c w. (Is c0 c × Is c0 w) × (b ≡ Queries.check_keypair account c0)}
        (λ s d x c v p. p)
        (Hoare-check_keypair env account (λ c d p. p.0) (λ c d p. (p, rw p.1 refl)))
        λ exists.
          Hoare-if_eq exists
            (λ e.
              Hoare-known (λ c w p. is_active account exists c0 p.1 e)
                λ active.
                  weaken (λ c w p. p.0) (λ r c w q. q)
                    (Hoare-queue_job ask description h (rw a active)))
            (λ e. Hoare-pure _ (λ c w p. p.0.0))

  pub Hoare-open :
      {c0 : Db}
      → Hoare (Is c0) (Both (Is c0) (λ _. Unit)) (Pg.begin env) (λ _. Both (Is c0) (Is c0))
  Hoare-open = Hoare-begin env (λ c w p. p.0) (λ c w p. (p.0, p.0))

  pub Hoare-open_for :
      {c0 : Db} (account : String) (ask : Ask) (description : String)
      → ask.allowed ≡ true
      → ask.account ≡ some account
      → Hoare
          (Is c0)
          (Both (Is c0) (λ _. Unit))
          (on_postgres (Pg.begin env) (λ _. queue_for env account description ask.args))
          (λ r c w. Post ask c0 r c)
  Hoare-open_for account ask description h a =
      Hoare-on_postgres (λ s d x c v p. p) Hoare-open
        (λ _. Hoare-queue_for account ask description h a)

  pub Hoare-refused :
      {c0 : Db} (ask : Ask) (s : ℕ) (d x : String)
      → Hoare
          (Is c0)
          (Both (Is c0) (λ _. Unit))
          (pure (err_response s d x))
          (λ r c w. Post ask c0 r c)
  Hoare-refused ask s d x = Hoare-pure _ (λ c w p. p.0)
