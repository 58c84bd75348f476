-- ===== src/Worker/Safety/Keeps.antt =====
-- Triples for a property of the committed database, whatever a job meets.
use eth_custodial.Store.Tables.{Db}
use eth_custodial.Store.Results.{Error, Result, ok, err, panicked}
use eth_custodial.World.{World, M, pure, raise, attempt}
use eth_custodial.World.Hoare.{Ends, Hoare-pure, Hoare-raise, weaken}
use eth_custodial.Pg.Safe.{Triple}
use eth_custodial.Worker.Unlocker.{go_on}

-- Whatever happens, the committed database keeps `P`.
abbrev pub Keeps : (Db → Type 0) → {A : Type 0} → M A → Type 0
Keeps P m = Triple P (λ _. Unit) m (λ _ _. Unit)

attempted :
    (P : Db → Type 0) {A : Type 0} (r : Result A) (w : World)
    → Ends P (λ _ c _. P c × Unit {0}) r w
    → P w.committed × Unit {0}
attempted P (ok a) w h = h
attempted P (err e) w h = (h, tt)

module _ {P : Db → Type 0} where
  -- An open transaction's database is left out of sight.
  pub forget : {A : Type 0} {m : M A} → Keeps P m → Triple P P m (λ _ _. Unit)
  forget k = weaken (λ c w p. (p.0, tt)) (λ a c w p. p) k

  pub Keeps-attempt : {A : Type 0} {m : M A} → Keeps P m → Keeps P (attempt m)
  unfolding attempt
  Keeps-attempt {A} {m} k = record { at = λ w p. attempted P (m w).0 (m w).1 (k.at w p) }

  pub Keeps-pure : {A : Type 0} (a : A) → Keeps P (pure a)
  Keeps-pure a = Hoare-pure a (λ c w p. p)

  pub Keeps-raise : {A : Type 0} (e : Error) → Keeps P (raise {A = A} e)
  Keeps-raise e = Hoare-raise e (λ c w p. p.0)

  pub Keeps-go_on : (r : Result Unit) (m n : M Unit) → Keeps P m → Keeps P n → Keeps P (go_on r m n)
  Keeps-go_on (ok a) m n hm hn = hm
  Keeps-go_on (err panicked) m n hm hn = Keeps-raise _
  Keeps-go_on (err e) m n hm hn = hn
