-- ===== src/World.antt =====
-- The state that the workers share, and the monad that they run in.
--
-- The database is there twice: `committed` is what every connection sees, `working` the view of
-- the open transaction, which `commit` publishes and an early return drops (the deferred
-- `tx.Rollback`). Sequences are not rolled back. Each call that leaves the process (Postgres, the
-- chain's RPC, NATS) takes one tick of `clock`.
pub mod Inert
pub mod Hoare
use eth_custodial.Prelude.{ℕ, List}
use eth_custodial.Jobs.{Bytes, Event}
use eth_custodial.Store.Tables.{Db}
use eth_custodial.Store.Results.{Error, Result, ok, err}

-- internal/gas `GasSettings`
pub record GasSettings : Type 0 where
  pub gas_fee_cap : ℕ
  pub gas_tip_cap : ℕ
  pub gas_limit : ℕ

pub record World : Type 0 where
  pub committed : Db
  pub working : Db
  pub keystore_seq : ℕ
  pub otx_seq : ℕ
  pub dispatch_seq : ℕ
  pub clock : ℕ
  -- when the open transaction began: `CURRENT_TIMESTAMP`
  pub began_at : ℕ
  pub events : List Event
  -- the raw transactions handed to the chain, the newest first
  pub sent : List Bytes
  pub gas : GasSettings

abbrev pub M : Type 0 → Type 0
M A = World → Result A × World

module _ {A : Type 0} where
  unfoldable pub pure : A → M A
  pure a w = (ok a, w)

  unfoldable pub raise : Error → M A
  raise e w = (err e, w)

  unfoldable pub lift : Result A → M A
  lift r w = (r, w)

  unfoldable pub gets : (World → A) → M A
  gets f w = (ok (f w), w)

module _ {A B : Type 0} where
  abbrev pub continue : Result A → (A → M B) → M B
  continue (ok a) f w = f a w
  continue (err e) f w = (err e, w)

  infixl 5 ◌>>=◌ ◌>>◌
  unfoldable pub ◌>>=◌ : M A → (A → M B) → M B
  unfolding pure raise lift gets
  ◌>>=◌ m f w = let (r, w') = m w in continue r f w'

  abbrev pub ◌>>◌ : M A → M B → M B
  m >> n = m >>= λ _. n

-- A call whose error the code does not look at.
unfoldable pub ignore_error : {A : Type 0} → M A → M Unit
ignore_error m w = let (r, w') = m w in (ok tt, w')

-- A call whose error the code looks at before it goes on.
unfoldable pub attempt : {A : Type 0} → M A → M (Result A)
attempt m w = let (r, w') = m w in (ok r, w')
