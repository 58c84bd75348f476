-- ===== src/Prelude/Sorting.antt =====
-- What the sort, the filter and the cut of a list keep.
use Prim.Native.Nat.{ℕ, zero, suc, ◌≤◌}
use mathlib.Core.Path.{◌≡◌, refl, ◌∙◌, ap}
use mathlib.Core.Logic.{◌⊎◌, inl, inr}
use mathlib.Core.Bool.{Bool, true}
use mathlib.Core.List.{List, [], ◌∷◌}
use native.Mathlib.Omega.{arith}
use eth_custodial.Prelude.Tests.{leb, Bool-cases}
use eth_custodial.Prelude.Lists.{length, keep, take, insert_by, sort_by, All, All-map}

module _ {ℓ} {A : Type ℓ} where
  abbrev pub IsSorted : (A → ℕ) → List A → Type 0
  IsSorted key [] = Unit
  IsSorted key (x ∷ xs) = All (λ y. key x ≤ key y) xs × IsSorted key xs

  All-insert_by {κ} :
      (P : A → Type κ) (key : A → ℕ) (x : A) (xs : List A)
      → P x
      → All P xs
      → All P (insert_by key x xs)
  unfolding insert_by
  All-insert_by P key x [] px h = (px, tt)
  All-insert_by P key x (y ∷ ys) px h = elim (Bool-cases (leb (key x) (key y))) [
    | inl t ↦ rw t (px, h)
    | inr f ↦ rw f (h.0, All-insert_by P key x ys px h.1)
  ]

  insert_by-IsSorted :
      (key : A → ℕ) (x : A) (xs : List A) → IsSorted key xs → IsSorted key (insert_by key x xs)
  unfolding insert_by
  insert_by-IsSorted key x [] h = (tt, tt)
  insert_by-IsSorted key x (y ∷ ys) h = elim (Bool-cases (leb (key x) (key y))) [
    | inl t ↦ rw t (
      (
        ground arith,
        All-map (λ z. key y ≤ key z) (λ z. key x ≤ key z) ys (λ z l. ground arith) h.0,
      ),
      h,
    )
    | inr f ↦ rw f (
      All-insert_by (λ z. key y ≤ key z) key x ys (ground arith) h.0,
      insert_by-IsSorted key x ys h.1,
    )
  ]

  pub sort_by-IsSorted : (key : A → ℕ) (xs : List A) → IsSorted key (sort_by key xs)
  unfolding sort_by
  sort_by-IsSorted key [] = tt
  sort_by-IsSorted key (x ∷ xs) =
      insert_by-IsSorted key x (sort_by key xs) (sort_by-IsSorted key xs)

  pub All-sort_by {κ} :
      (P : A → Type κ) (key : A → ℕ) (xs : List A) → All P xs → All P (sort_by key xs)
  unfolding sort_by
  All-sort_by P key [] h = tt
  All-sort_by P key (x ∷ xs) h =
      All-insert_by P key x (sort_by key xs) h.0 (All-sort_by P key xs h.1)

  length-insert_by :
      (key : A → ℕ) (x : A) (xs : List A) → length (insert_by key x xs) ≡ suc (length xs)
  unfolding insert_by
  length-insert_by key x [] = refl
  length-insert_by key x (y ∷ ys) = elim (Bool-cases (leb (key x) (key y))) [
    | inl t ↦ rw t refl
    | inr f ↦ rw f (ap suc (length-insert_by key x ys))
  ]

  pub length-sort_by : (key : A → ℕ) (xs : List A) → length (sort_by key xs) ≡ length xs
  unfolding sort_by
  length-sort_by key [] = refl
  length-sort_by key (x ∷ xs) =
      length-insert_by key x (sort_by key xs) ∙ ap suc (length-sort_by key xs)

  pub All-keep : (p : A → Bool) (xs : List A) → All (λ x. p x ≡ true) (keep p xs)
  All-keep p [] = tt
  All-keep p (x ∷ xs) = elim (Bool-cases (p x)) [
    | inl t ↦ rw t (t, All-keep p xs)
    | inr f ↦ rw f (All-keep p xs)
  ]

  pub All-take {κ} : (P : A → Type κ) (n : ℕ) (xs : List A) → All P xs → All P (take n xs)
  All-take P zero xs h = tt
  All-take P (suc n) [] h = tt
  All-take P (suc n) (x ∷ xs) h = (h.0, All-take P n xs h.1)

  pub take-IsSorted :
      (key : A → ℕ) (n : ℕ) (xs : List A) → IsSorted key xs → IsSorted key (take n xs)
  take-IsSorted key zero xs h = tt
  take-IsSorted key (suc n) [] h = tt
  take-IsSorted key (suc n) (x ∷ xs) h =
      (All-take (λ y. key x ≤ key y) n xs h.0, take-IsSorted key n xs h.1)

  -- A cut list has the length of the cut, or is the whole list.
  pub length-take :
      (n : ℕ) (xs : List A)
      → (length (take n xs) ≤ n) × ((length (take n xs) ≡ n) ⊎ (length (take n xs) ≡ length xs))
  length-take zero xs = (omega arith, inl refl)
  length-take (suc n) [] = (omega arith, inr refl)
  length-take (suc n) (x ∷ xs) = elim (length-take n xs).1 [
    | inl e ↦ (ground arith, inl (ap suc e))
    | inr e ↦ (ground (arith, length-take n xs), inr (ap suc e))
  ]
