-- ===== src/Cmd/Unlocker/Count.antt =====
-- The counts of cmd/unlocker.
use eth_custodial.Prelude.{
  ℕ, suc, ◌+◌, ◌≡◌, refl, String, Bool, true, false, Option, none, some, List, [], ◌∷◌, length,
  arith, ltb, if◌then◌else◌,
}
use eth_custodial.Jobs.{Bytes}
use eth_custodial.Store.Tables.{Otx}
use eth_custodial.Store.Results.{Error, Result, ok, err, panicked}
use eth_custodial.World.{World, M, pure, raise, continue, ◌>>=◌}
use eth_custodial.World.Inert.{Yields}
use eth_custodial.Runtime.{Env}
use eth_custodial.Worker.Unlocker.Refusal.{
  Kind, nonce_low, gas_price, replacement_underpriced, no_gas, unknown, classify,
}
use eth_custodial.Cmd.Unlocker.Nodes.{Node}
use eth_custodial.Cmd.Unlocker.{
  Tally, Outcome, was_resubmitted, was_resigned, was_already_done, has_failed, lacks_gas,
  would_resubmit, skip, count, logged, kind_outcome, store_resigned, settle, resign, on_kind,
  on_answer, resubmit, process_otx, process_otxs, is_out_of_gas,
}

-- All that is counted.
abbrev pub total : Tally → ℕ
total t = t.resubmitted + t.resigned + t.already_done + t.skipped + t.failed

abbrev is_counted : Outcome → Bool
is_counted would_resubmit = false
is_counted _ = true

abbrev Counts : M Outcome → Type 0
Counts m = (w : World) → Yields (λ o. is_counted o ≡ true) (m w).0

Yields-continue :
    {A B : Type 0} (P : B → Type 0) (r : Result A) (f : A → M B) (w : World)
    → ((a : A) (v : World) → Yields P (f a v).0)
    → Yields P (continue r f w).0
Yields-continue P (ok a) f w h = h a w
Yields-continue P (err e) f w h = tt

Counts-bind :
    {A : Type 0} (m : M A) (f : A → M Outcome) → ((a : A) → Counts (f a)) → Counts (m >>= f)
unfolding ◌>>=◌
Counts-bind m f h w = Yields-continue _ (m w).0 f (m w).1 h

Counts-logged :
    {A : Type 0} (r : Result A) (good bad : Outcome)
    → is_counted good ≡ true
    → is_counted bad ≡ true
    → Counts (logged r good bad)
unfolding pure raise
Counts-logged (ok a) good bad g b w = g
Counts-logged (err panicked) good bad g b w = tt
Counts-logged (err e) good bad g b w = b

kind_is_counted : (k : Kind) → is_counted (kind_outcome k) ≡ true
kind_is_counted no_gas = refl
kind_is_counted _ = refl

total-count :
    (account : String) (o : Outcome) (t : Tally)
    → is_counted o ≡ true
    → total (count account o t) ≡ total t + 1
total-count account was_resubmitted t h = omega arith
total-count account was_resigned t h = omega arith
total-count account was_already_done t h = omega arith
total-count account has_failed t h = omega arith
total-count account lacks_gas t h = omega arith
total-count account would_resubmit t h = cc

shifted :
    {a : ℕ} (b n : ℕ) (r : Result Tally)
    → a ≡ b + 1
    → Yields (λ x. total x ≡ a + n) r
    → Yields (λ x. total x ≡ b + suc n) r
shifted b n (ok x) e h = omega (arith, e, h)
shifted b n (err x) e h = tt

module _ (env : Env) (text : Error → String) (nodes : List Node) where
  Counts-store_resigned :
      (otx : Otx) (r : Result (String × String))
      → Counts (store_resigned env text nodes false otx r)
  unfolding pure raise
  Counts-store_resigned otx (ok new) w = Counts-bind _ _ (λ r. Counts-logged r _ _ refl refl) w
  Counts-store_resigned otx (err panicked) w = tt
  Counts-store_resigned otx (err e) w = kind_is_counted _

  Counts-settle : (otx : Otx) → Counts (settle env text nodes false otx)
  unfolding settle
  Counts-settle otx = Counts-bind _ _ (λ r. Counts-logged r _ _ refl refl)

  Counts-resign : (otx : Otx) (account : String) → Counts (resign env text nodes false otx account)
  unfolding resign
  Counts-resign otx account = Counts-bind _ _ (Counts-store_resigned otx)

  Counts-on_kind :
      (otx : Otx) (account : String) (k : Kind)
      → Counts (on_kind env text nodes false otx account k)
  unfolding pure
  Counts-on_kind otx account nonce_low w = Counts-settle otx w
  Counts-on_kind otx account gas_price w = Counts-resign otx account w
  Counts-on_kind otx account replacement_underpriced w = Counts-resign otx account w
  Counts-on_kind otx account no_gas w = refl
  Counts-on_kind otx account unknown w = refl

  Counts-on_answer :
      (otx : Otx) (account : String) (r : Option String)
      → Counts (on_answer env text nodes false otx account r)
  unfolding on_answer
  Counts-on_answer otx account none w = Counts-bind _ _ (λ r. Counts-logged r _ _ refl refl) w
  Counts-on_answer otx account (some msg) w = Counts-on_kind otx account (classify msg) w

  Counts-resubmit :
      (otx : Otx) (account : String) (r : Option Bytes)
      → Counts (resubmit env text nodes false otx account r)
  unfolding pure
  Counts-resubmit otx account none w = refl
  Counts-resubmit otx account (some raw) w = Counts-bind _ _ (Counts-on_answer otx account) w

  Counts-if : (b : Bool) (m n : M Outcome) → Counts m → Counts n → Counts (if b then m else n)
  Counts-if true m n hm hn = hm
  Counts-if false m n hm hn = hn

  Counts-process_otx :
      (account : String) (n : ℕ) (otx : Otx)
      → Counts (process_otx env text nodes false account n otx)
  unfolding process_otx
  Counts-process_otx account n otx =
      Counts-if (ltb otx.nonce n) _ _ (Counts-settle otx) (Counts-resubmit otx account _)

  next :
      (account : String) (n : ℕ) (os : List Otx) (t : Tally) (r : Result Outcome) (w : World)
      → Yields (λ o. is_counted o ≡ true) r
      → ((skips : Bool) (t' : Tally) (v : World)
          → Yields
              (λ x. total x ≡ total t' + length os)
              (process_otxs env text nodes false account n os skips t' v).0)
      → Yields
          (λ x. total x ≡ total t + suc (length os))
          (continue r
            (λ r.
              process_otxs env text nodes false account n os (is_out_of_gas r) (count account r t))
            w).0
  next account n os t (err e) w h k = tt
  next account n os t (ok o) w h k =
      shifted (total t) (length os) _ (total-count account o t h)
        (k (is_out_of_gas o) (count account o t) w)

  -- Outside of a dry run, every transaction of an account is counted once: as resubmitted, as signed
  -- again, as done, as skipped or as failed.
  pub process_otxs-total :
      (account : String) (n : ℕ) (os : List Otx) (skips : Bool) (t : Tally) (w : World)
      → Yields
          (λ x. total x ≡ total t + length os)
          (process_otxs env text nodes false account n os skips t w).0
  unfolding process_otxs pure ◌>>=◌
  process_otxs-total account n [] skips t w = omega arith
  process_otxs-total account n (o ∷ os) true t w =
      shifted (total t) (length os) _ (omega arith)
        (process_otxs-total account n os true (skip t) w)
  process_otxs-total account n (o ∷ os) false t w =
      next account n os t (process_otx env text nodes false account n o w).0 _
        (Counts-process_otx account n o w) (process_otxs-total account n os)
