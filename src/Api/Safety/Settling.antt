-- ===== src/Api/Safety/Settling.antt =====
-- What an answer says of the database, and the steps of the handlers that only read.
use eth_custodial.Prelude.{String}
use eth_custodial.Store.Tables.{Db}
use eth_custodial.Store.Sound.{IsSound, IsBacked}
use eth_custodial.Store.Sound.Updates.{add_jobs-IsSound}
use eth_custodial.World.{M, pure}
use eth_custodial.World.Hoare.{Hoare, Still, Hoare-pure, weaken}
use eth_custodial.Runtime.{Env}
use eth_custodial.Pg
use eth_custodial.Pg.Rules.{Hoare-begin, Hoare-commit}
use eth_custodial.Pg.Safe.{Kept, Both, steady}
use eth_custodial.Api.Response.{Reply, Payload, ok_response, err_response, on_postgres}
use eth_custodial.Api.Tokens.{plain_job}
use eth_custodial.Api.Pools.{}
use eth_custodial.Api.Contracts.{}
use eth_custodial.Api.Accounts.{}
use eth_custodial.Api.Otx.{}
use eth_custodial.Api.Rpc.{}
use eth_custodial.Api.Safety.Rules.{Hoare-on_postgres, Hoare-known, relax}
use eth_custodial.Api.Safety.Queued.{Ask, Post, Asks}
use eth_custodial.Api.Safety.Asks.{}
use eth_custodial.Api.{}

abbrev pub Settles : Db → Reply → Db → Type 0
Settles c0 (ok_response d p) c = IsSound c
Settles c0 (err_response s d x) c = Kept c0 c

abbrev pub Settled : M Reply → Type 0
Settled m = (c0 : Db) → Hoare (Kept c0) (Both (Kept c0) (λ _. Unit)) m (λ r c w. Settles c0 r c)

unkept : (c0 c : Db) → Kept c0 c → IsSound c0
unkept c0 c k = rw (← k.1) k.0

module _ (ask : Ask)
    (plain : (id : String) (d : Db) → IsBacked d.otx (plain_job (ask.args id))) where
  settle : (c0 : Db) → IsSound c0 → (r : Reply) (c : Db) → Post ask c0 r c → Settles c0 r c
  settle c0 s (ok_response d p) c q =
      rw q.after (add_jobs-IsSound _ c0 s (plain q.tracking_id c0, tt))
  settle c0 s (err_response i d x) c q = (rw q s, q)

  pub Asks-Settled : {m : M Reply} → Asks ask m → Settled m
  Asks-Settled h c0 =
      Hoare-known (λ c w p. unkept c0 c p.0)
        λ s.
          weaken (λ c w p. (p.0.1, tt)) (λ r c w q. settle c0 s r c q)
            (relax (λ c e. (rw e s, e)) (h c0))

-- A query in a transaction that only reads.
pub Hoare-look :
    {A : Type 0} {c0 : Db} {m : M A} {k : A → M Reply}
    → Still m
    → ((a : A) → Hoare (Kept c0) (Both (Kept c0) (Kept c0)) (k a) (λ r c w. Settles c0 r c))
    → Hoare (Kept c0) (Both (Kept c0) (Kept c0)) (on_postgres m k) (λ r c w. Settles c0 r c)
Hoare-look s h = Hoare-on_postgres (λ s d x c v p. p) (steady s) h

module _ (env : Env) where
  pub Hoare-open :
      {c0 : Db}
      → Hoare (Kept c0) (Both (Kept c0) (λ _. Unit)) (Pg.begin env) (λ _. Both (Kept c0) (Kept c0))
  Hoare-open = Hoare-begin env (λ c w p. p.0) (λ c w p. (p.0, p.0))

  -- The end of a handler that only reads.
  pub Hoare-close :
      {c0 : Db} (d : String) (p : Payload)
      → Hoare
          (Kept c0)
          (Both (Kept c0) (Kept c0))
          (on_postgres (Pg.commit env) (λ _. pure (ok_response d p)))
          (λ r c w. Settles c0 r c)
  Hoare-close d p =
      Hoare-on_postgres {Q = λ _ c w. IsSound c} (λ s d x c v p. p)
        (Hoare-commit env (λ c w p. p.0) (λ c w p. p.1.0)) (λ _. Hoare-pure _ (λ c w p. p))
