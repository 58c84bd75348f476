-- ===== src/Cmd/Service/Calms.antt =====
-- A start that succeeds wherever another does, with the same result: how this passes through the
-- steps of a start.
use eth_custodial.Prelude.{◌≡◌, refl, Bool, true, false, Option, none, some, if◌then◌else◌}
use eth_custodial.Cmd.Service.State.{Process, Boot, must, continue, ◌>>=◌, loaded, or_load}

abbrev pub given : {A : Type 0} → Option A → A → A
given (some a) d = a
given none d = d

-- Where `m` succeeds, `n` does so with the same result.
pub record Calms {A : Type 0} (m n : Boot A) : Type 0 where
  pub at : (p : Process) (x : A × Process) → m p ≡ some x → n p ≡ some x

module _ {A : Type 0} where
  pub Calms-refl : (m : Boot A) → Calms m m
  Calms-refl m = record { at = λ p x h. h }

  pub Calms-loaded :
      (f : Process → Option A) {m n : Boot A} → Calms m n → Calms (loaded f m) (loaded f n)
  unfolding loaded
  Calms-loaded f {m} {n} c = record { at = λ p x h. go p x (f p) h }
    where
      go :
          (p : Process) (x : A × Process) (o : Option A)
          → or_load o m p ≡ some x
          → or_load o n p ≡ some x
      go p x (some a) h = h
      go p x none h = c.at p x h

  pub Calms-must : (o : Option A) (d : A) → Calms (must o) (must (some (given o d)))
  unfolding must
  Calms-must (some a) d = Calms-refl _
  Calms-must none d = record { at = λ p x h. cc }

  pub Calms-if :
      {m n m' n' : Boot A} (b : Bool)
      → Calms m m'
      → Calms n n'
      → Calms (if b then m else n) (if b then m' else n')
  Calms-if true cm cn = cm
  Calms-if false cm cn = cn

module _ {A B : Type 0} where
  infixr 4 ◌⨾◌
  pub ◌⨾◌ :
      {m n : Boot A} {f g : A → Boot B}
      → Calms m n
      → ((a : A) → Calms (f a) (g a))
      → Calms (m >>= f) (n >>= g)
  unfolding ◌>>=◌
  ◌⨾◌ {m} {n} {f} {g} c k = record { at = λ p x h. go p x (m p) refl h }
    where
      go :
          (p : Process) (x : B × Process) (r : Option (A × Process))
          → m p ≡ r
          → continue r f ≡ some x
          → continue (n p) g ≡ some x
      go p x none e h = cc
      go p x (some (a, p')) e h = rw (c.at p (a, p') e) ((k a).at p' x h)
