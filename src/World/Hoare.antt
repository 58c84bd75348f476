-- ===== src/World/Hoare.antt =====
-- Triples for the shared monad. A precondition and the postcondition of a normal return speak of
-- the committed database and of the open transaction's view; whatever fails leaves a committed
-- database with `E`.
use eth_custodial.Prelude.{◌≡◌, refl, ◌∙◌, Bool, true, false, if◌then◌else◌}
use eth_custodial.Store.Tables.{Db}
use eth_custodial.Store.Results.{Error, Result, ok, err}
use eth_custodial.World.{World, M, pure, raise, lift, gets, continue, ignore_error, attempt, ◌>>=◌}

abbrev pub Assert : Type 1
Assert = Db → Db → Type 0

abbrev pub Ends : {A : Type 0} → (Db → Type 0) → (A → Assert) → Result A → World → Type 0
Ends E Q (ok a) w = Q a w.committed w.working
Ends E Q (err e) w = E w.committed

pub record Hoare {A : Type 0} (E : Db → Type 0) (P : Assert) (m : M A) (Q : A → Assert)
    : Type 0 where
  pub at : (w : World) → P w.committed w.working → Ends E Q (m w).0 (m w).1

-- Neither database changes.
pub record Still {A : Type 0} (m : M A) : Type 0 where
  pub kept_committed : (w : World) → (m w).1.committed ≡ w.committed
  pub kept_working : (w : World) → (m w).1.working ≡ w.working

module _ {A B : Type 0} {E : Db → Type 0} {Q : A → Assert} {R : B → Assert} where
  continue-Ends :
      (r : Result A) (f : A → M B) (w : World)
      → Ends E Q r w
      → ((a : A) → Hoare E (Q a) (f a) R)
      → Ends E R (continue r f w).0 (continue r f w).1
  continue-Ends (ok a) f w h k = (k a).at w h
  continue-Ends (err e) f w h k = h

module _ {A B : Type 0} {E : Db → Type 0} {P : Assert} {Q : A → Assert} {R : B → Assert} where
  infixr 4 ◌⨾◌
  pub ◌⨾◌ :
      {m : M A} {f : A → M B}
      → Hoare E P m Q
      → ((a : A) → Hoare E (Q a) (f a) R)
      → Hoare E P (m >>= f) R
  unfolding ◌>>=◌
  ◌⨾◌ {m} {f} h k = record { at = λ w p. continue-Ends (m w).0 f (m w).1 (h.at w p) k }

module _ {A : Type 0} {E : Db → Type 0} where
  pub Hoare-pure :
      {P : Assert} {Q : A → Assert} (a : A) → ((c w : Db) → P c w → Q a c w) → Hoare E P (pure a) Q
  unfolding pure
  Hoare-pure a h = record { at = λ w p. h w.committed w.working p }

  pub Hoare-raise :
      {P : Assert} {Q : A → Assert} (e : Error) → ((c w : Db) → P c w → E c) → Hoare E P (raise e) Q
  unfolding raise
  Hoare-raise e h = record { at = λ w p. h w.committed w.working p }

  pub Hoare-if :
      {P : Assert} {Q : A → Assert} {m n : M A} (b : Bool)
      → Hoare E P m Q
      → Hoare E P n Q
      → Hoare E P (if b then m else n) Q
  Hoare-if true hm hn = hm
  Hoare-if false hm hn = hn

  pub weaken :
      {P P' : Assert} {Q Q' : A → Assert} {m : M A}
      → ((c w : Db) → P' c w → P c w)
      → ((a : A) (c w : Db) → Q a c w → Q' a c w)
      → Hoare E P m Q
      → Hoare E P' m Q'
  weaken {Q} {Q'} {m} p q h = record {
    at = λ w x. go (m w).0 (m w).1 (h.at w (p w.committed w.working x));
  }
    where
      go : (r : Result A) (w : World) → Ends E Q r w → Ends E Q' r w
      go (ok a) w x = q a w.committed w.working x
      go (err e) w x = x

-- What follows a computed result may use that it is that result.
module _ {A B : Type 0} {E : Db → Type 0} {P : Assert} {R : B → Assert} where
  pub Hoare-lift :
      (r : Result A) {f : A → M B}
      → ((c w : Db) → P c w → E c)
      → ((a : A) → r ≡ ok a → Hoare E P (f a) R)
      → Hoare E P (lift r >>= f) R
  unfolding ◌>>=◌ lift
  Hoare-lift r {f} e h = record { at = λ w p. go w p r h }
    where
      go :
          (w : World)
          → P w.committed w.working
          → (x : Result A) → ((a : A) → x ≡ ok a → Hoare E P (f a) R)
          → Ends E R (continue x f w).0 (continue x f w).1
      go w p (ok a) k = (k a refl).at w p
      go w p (err x) k = e w.committed w.working p

-- A still action keeps every assertion.
module _ {A : Type 0} {E : Db → Type 0} {P : Assert} where
  still-Ends :
      (r : Result A) (w w' : World)
      → ((c d : Db) → P c d → E c)
      → w'.committed ≡ w.committed
      → w'.working ≡ w.working
      → P w.committed w.working
      → Ends E (λ _. P) r w'
  still-Ends (ok a) w w' e hc hw p = rw (hc, hw) p
  still-Ends (err x) w w' e hc hw p = rw hc (e w.committed w.working p)

  pub still : {m : M A} → ((c w : Db) → P c w → E c) → Still m → Hoare E P m (λ _. P)
  still {m} e s = record {
    at = λ w p. still-Ends (m w).0 w (m w).1 e (s.kept_committed w) (s.kept_working w) p;
  }

module _ {A : Type 0} where
  pub Still-pure : (a : A) → Still (pure a)
  unfolding pure
  Still-pure a = record { kept_committed = λ w. refl; kept_working = λ w. refl }

  pub Still-lift : (r : Result A) → Still (lift r)
  unfolding lift
  Still-lift r = record { kept_committed = λ w. refl; kept_working = λ w. refl }

  pub Still-gets : (f : World → A) → Still (gets f)
  unfolding gets
  Still-gets f = record { kept_committed = λ w. refl; kept_working = λ w. refl }

  pub Still-raise : (e : Error) → Still (raise {A = A} e)
  unfolding raise
  Still-raise e = record { kept_committed = λ w. refl; kept_working = λ w. refl }

  pub Still-ignore_error : {m : M A} → Still m → Still (ignore_error m)
  unfolding ignore_error
  Still-ignore_error s = record { kept_committed = s.kept_committed; kept_working = s.kept_working }

  pub Still-attempt : {m : M A} → Still m → Still (attempt m)
  unfolding attempt
  Still-attempt s = record { kept_committed = s.kept_committed; kept_working = s.kept_working }

  pub Still-if : {m n : M A} (b : Bool) → Still m → Still n → Still (if b then m else n)
  Still-if true hm hn = hm
  Still-if false hm hn = hn

module _ {A B : Type 0} where
  continue-committed :
      (r : Result A) (f : A → M B) (w : World)
      → ((a : A) → Still (f a))
      → (continue r f w).1.committed ≡ w.committed
  continue-committed (ok a) f w k = (k a).kept_committed w
  continue-committed (err e) f w k = refl

  continue-working :
      (r : Result A) (f : A → M B) (w : World)
      → ((a : A) → Still (f a))
      → (continue r f w).1.working ≡ w.working
  continue-working (ok a) f w k = (k a).kept_working w
  continue-working (err e) f w k = refl

  pub Still-bind : {m : M A} {f : A → M B} → Still m → ((a : A) → Still (f a)) → Still (m >>= f)
  unfolding ◌>>=◌
  Still-bind {m} {f} s k = record {
    kept_committed = λ w. continue-committed (m w).0 f (m w).1 k ∙ s.kept_committed w;
    kept_working = λ w. continue-working (m w).0 f (m w).1 k ∙ s.kept_working w;
  }
