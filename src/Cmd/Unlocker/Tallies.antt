-- ===== src/Cmd/Unlocker/Tallies.antt =====
-- What the loops of cmd/unlocker keep of the counts and of the accounts that need gas.
use eth_custodial.Prelude.{ℕ, String, Bool, true, false, List, [], ◌∷◌, if◌then◌else◌}
use eth_custodial.Store.Tables.{Otx}
use eth_custodial.Store.Results.{Error, Result, ok, err, panicked}
use eth_custodial.World.{World, M, pure, raise, continue, ◌>>=◌}
use eth_custodial.World.Inert.{Yields}
use eth_custodial.Runtime.{Env}
use eth_custodial.Cmd.Unlocker.Nodes.{Node}
use eth_custodial.Cmd.Unlocker.{
  Tally, Outcome, skip, count, process_otx, process_otxs, with_otxs, with_nonce, process_account,
  process_accounts, run, is_out_of_gas, no_tally,
}

-- Every value that `m` returns is one of which `P` holds.
pub record Gives {A : Type 0} (P : A → Type 0) (m : M A) : Type 0 where
  pub at : (w : World) → Yields P (m w).0

pub Gives-any : {A : Type 0} (m : M A) → Gives (λ a. Unit) m
Gives-any m = record { at = λ w. any (m w).0 }
  where
    any : {A : Type 0} (r : Result A) → Yields (λ a. Unit) r
    any (ok a) = tt
    any (err e) = tt

module _ {A B : Type 0} where
  continue-Yields :
      (P : A → Type 0) {Q : B → Type 0} (r : Result A) (f : A → M B) (w : World)
      → Yields P r
      → ((a : A) → P a → Gives Q (f a))
      → Yields Q (continue r f w).0
  continue-Yields P (ok a) f w h k = (k a h).at w
  continue-Yields P (err e) f w h k = tt

module _ {A B : Type 0} {Q : B → Type 0} where
  pub Gives-bind :
      (P : A → Type 0) (m : M A) (f : A → M B)
      → Gives P m
      → ((a : A) → P a → Gives Q (f a))
      → Gives Q (m >>= f)
  unfolding ◌>>=◌
  Gives-bind P m f h k = record { at = λ w. continue-Yields P (m w).0 f (m w).1 (h.at w) k }

  pub Gives-after : (m : M A) (f : A → M B) → ((a : A) → Gives Q (f a)) → Gives Q (m >>= f)
  Gives-after m f k = Gives-bind (λ a. Unit) m f (Gives-any m) λ a h. k a

module _ {A : Type 0} {P : A → Type 0} where
  pub Gives-pure : (a : A) → P a → Gives P (pure a)
  unfolding pure
  Gives-pure a h = record { at = λ w. h }

  pub Gives-raise : (e : Error) → Gives P (raise e)
  unfolding raise
  Gives-raise e = record { at = λ w. tt }

  pub Gives-if : (b : Bool) (m n : M A) → Gives P m → Gives P n → Gives P (if b then m else n)
  Gives-if true m n hm hn = hm
  Gives-if false m n hm hn = hn

-- `O` holds of the outcomes, and `P` of the counts, which `count` and `skip` keep.
module _ (env : Env) (text : Error → String) (nodes : List Node) (dry : Bool) (O : Outcome → Type 0)
    (P : Tally → Type 0) where
  pub record IsKept : Type 0 where
    pub outcomes :
        (account : String) (n : ℕ) (o : Otx) → Gives O (process_otx env text nodes dry account n o)
    pub counted : (account : String) (o : Outcome) (t : Tally) → O o → P t → P (count account o t)
    pub skipped : (t : Tally) → P t → P (skip t)

  module _ (kept : IsKept) where
    Gives-process_otxs :
        (account : String) (n : ℕ) (os : List Otx) (skips : Bool) (t : Tally)
        → P t
        → Gives P (process_otxs env text nodes dry account n os skips t)
    unfolding process_otxs
    Gives-process_otxs account n [] skips t h = Gives-pure t h
    Gives-process_otxs account n (o ∷ os) true t h =
        Gives-process_otxs account n os true (skip t) (kept.skipped t h)
    Gives-process_otxs account n (o ∷ os) false t h =
        Gives-bind O _ _ (kept.outcomes account n o) λ r g.
          Gives-process_otxs account n os (is_out_of_gas r) (count account r t)
            (kept.counted account r t g h)

    Gives-with_otxs :
        (account : String) (n : ℕ) (t : Tally) (r : Result (List Otx))
        → P t
        → Gives P (with_otxs env text nodes dry account n t r)
    Gives-with_otxs account n t (ok os) h = Gives-process_otxs account n os false t h
    Gives-with_otxs account n t (err panicked) h = Gives-raise _
    Gives-with_otxs account n t (err e) h = Gives-pure _ (kept.skipped t h)

    Gives-with_nonce :
        (account : String) (t : Tally) (r : Result ℕ)
        → P t
        → Gives P (with_nonce env text nodes dry account t r)
    unfolding with_nonce
    Gives-with_nonce account t (ok n) h = Gives-after _ _ λ r. Gives-with_otxs account n t r h
    Gives-with_nonce account t (err panicked) h = Gives-raise _
    Gives-with_nonce account t (err e) h = Gives-pure _ (kept.skipped t h)

    Gives-process_accounts :
        (accounts : List String) (t : Tally)
        → P t
        → Gives P (process_accounts env text nodes dry accounts t)
    unfolding process_accounts process_account
    Gives-process_accounts [] t h = Gives-pure t h
    Gives-process_accounts (a ∷ as_) t h =
        Gives-bind P _ _ (Gives-after _ _ λ r. Gives-with_nonce a t r h)
          (Gives-process_accounts as_)

    pub Gives-run : P no_tally → Gives P (run env text nodes dry)
    unfolding run
    Gives-run h = Gives-after _ _ λ t. Gives-after _ _ λ stuck. Gives-process_accounts _ _ h
