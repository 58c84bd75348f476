-- ===== src/Pg/Inert.antt =====
-- The calls of the store that change nothing that others can see.
use eth_custodial.Prelude.{Bool-cases, inl, inr, suc, refl, Bool, true, false, if◌then◌else◌}
use eth_custodial.Store.Tables.{Db}
use eth_custodial.Store.Results.{Error, Result, ok, err}
use eth_custodial.World.{World, ◌>>=◌}
use eth_custodial.World.Inert.{IsInvisible, Inert, invisible, Inert-bind, Yields}
use eth_custodial.Runtime.{Env}
use eth_custodial.Pg

module _ (env : Env) where
  pub Inert-external : Inert (Pg.external env)
  unfolding Pg.external
  Inert-external w = by_failure (env.fails w.clock)
    where
      by_failure :
          (b : Bool)
          → IsInvisible w
              (if◌then◌else◌ {A = Result Unit × World} b
                (err (Error.unavailable w.clock), record w { clock = suc w.clock })
                (ok tt, record w { clock = suc w.clock })).1
      by_failure true = record { committed = refl; sent = refl; events = refl }
      by_failure false = record { committed = refl; sent = refl; events = refl }

  pub Inert-begin : Inert (Pg.begin env)
  unfolding Pg.begin Pg.moment Pg.begin_at Pg.open_tx
  Inert-begin = Inert-bind _ _ Inert-external λ _.
      Inert-bind _ _ (λ w. invisible) λ t w. record { committed = refl; sent = refl; events = refl }

  pub Inert-query : {A : Type 0} (f : Db → Result A) → Inert (Pg.query env f)
  unfolding Pg.query Pg.read_committed
  Inert-query f = Inert-bind _ _ Inert-external (λ _ w. invisible)

  -- A query yields what its answers have.
  pub query-Yields :
      {A : Type 0} (P : A → Type 0) (f : Db → Result A)
      → ((d : Db) → Yields P (f d))
      → (w : World) → Yields P (Pg.query env f w).0
  unfolding Pg.query Pg.external Pg.read_committed ◌>>=◌
  query-Yields {A} P f h w = elim (Bool-cases (env.fails w.clock)) [
    | inl t ↦ rw t (tt {0})
    | inr n ↦ rw n (h w.committed)
  ]
