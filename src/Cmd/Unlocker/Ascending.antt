-- ===== src/Cmd/Unlocker/Ascending.antt =====
-- The order of texts, and what `sort_texts` makes of texts that differ.
use Prim.Native.Nat.{Ordering}
use Prim.Native.Char.{Char, code}
use Prim.Native.String.compare
use Prim.Native.String.{compare, then}
use text.Mathlib.Text.{is_eq, is_lt, is_le}
use eth_custodial.Prelude.{
  ◌≡◌, refl, ap, ◌∙◌, String, Bool, true, false, ◌&&◌, ◌||◌, List, [], ◌∷◌, All, All-map, arith,
  ltb, ◌==◌, inl, inr, Bool-cases, str_eq,
}
use eth_custodial.Cmd.Unlocker.Text.{is_before, insert_text, sort_texts}

abbrev is_less : String → String → Bool
is_less a b = is_lt (compare a b)

then-lt :
    (o r : Ordering)
    → is_lt (then o r) ≡ (
        elim o [ Ordering.lt ↦ true | _ ↦ false ]
        || (elim o [ Ordering.eq ↦ true | _ ↦ false ] && is_lt r))
then-lt Ordering.lt r = refl
then-lt Ordering.eq r = refl
then-lt Ordering.gt r = refl

then-le :
    (o r : Ordering)
    → is_le (then o r) ≡ (
        elim o [ Ordering.lt ↦ true | _ ↦ false ]
        || (elim o [ Ordering.eq ↦ true | _ ↦ false ] && is_le r))
then-le Ordering.lt r = refl
then-le Ordering.eq r = refl
then-le Ordering.gt r = refl

is_less-cons :
    (c d : Char) (s t : String)
    → is_less (String.◌∷◌ c s) (String.◌∷◌ d t)
      ≡ (ltb (code c) (code d) || (code c == code d && is_less s t))
is_less-cons c d s t = ap is_lt (compare.cons-cons c d s t) ∙ then-lt _ _

is_before-cons :
    (c d : Char) (s t : String)
    → is_before (String.◌∷◌ c s) (String.◌∷◌ d t)
      ≡ (ltb (code c) (code d) || (code c == code d && is_before s t))
is_before-cons c d s t = ap is_le (compare.cons-cons c d s t) ∙ then-le _ _

is_less-nil_cons : (c : Char) (s : String) → is_less "" (String.◌∷◌ c s) ≡ true
is_less-nil_cons c s = ap is_lt (compare.nil-cons c s)

is_less-cons_nil : (c : Char) (s : String) → is_less (String.◌∷◌ c s) "" ≡ false
is_less-cons_nil c s = ap is_lt (compare.cons-nil c s)

is_before-nil_cons : (c : Char) (s : String) → is_before "" (String.◌∷◌ c s) ≡ true
is_before-nil_cons c s = ap is_le (compare.nil-cons c s)

is_less_trans : (a b c : String) → is_less a b ≡ true → is_less b c ≡ true → is_less a c ≡ true
is_less_trans String.[] String.[] c h k = cc
is_less_trans String.[] (String.◌∷◌ d t) String.[] h k = cc (is_less-cons_nil d t)
is_less_trans String.[] (String.◌∷◌ d t) (String.◌∷◌ e u) h k = is_less-nil_cons e u
is_less_trans (String.◌∷◌ d s) String.[] c h k = cc (is_less-cons_nil d s)
is_less_trans (String.◌∷◌ d s) (String.◌∷◌ e t) String.[] h k = cc (is_less-cons_nil e t)
is_less_trans (String.◌∷◌ d s) (String.◌∷◌ e t) (String.◌∷◌ f u) h k =
    ground
      (arith, is_less-cons d e s t, is_less-cons e f t u, is_less-cons d f s u, is_less_trans s t u)

less_or_before : (a b : String) → is_before a b ≡ false → is_less b a ≡ true
less_or_before String.[] String.[] h = cc
less_or_before String.[] (String.◌∷◌ d t) h = cc (is_before-nil_cons d t)
less_or_before (String.◌∷◌ d s) String.[] h = is_less-nil_cons d s
less_or_before (String.◌∷◌ d s) (String.◌∷◌ e t) h =
    ground (arith, is_before-cons d e s t, is_less-cons e d t s, less_or_before s t)

-- No text before a smaller one, and none twice.
abbrev pub IsAscending : List String → Type 0
IsAscending [] = Unit
IsAscending (x ∷ xs) = All (λ y. is_less x y ≡ true) xs × IsAscending xs

abbrev pub Differs : String → List String → Type 0
Differs x = All (λ y. str_eq x y ≡ false)

abbrev pub IsDistinct : List String → Type 0
IsDistinct [] = Unit
IsDistinct (x ∷ xs) = Differs x xs × IsDistinct xs

All-insert_text :
    (P : String → Type 0) (x : String) (xs : List String)
    → P x
    → All P xs
    → All P (insert_text x xs)
unfolding insert_text
All-insert_text P x [] px h = (px, tt)
All-insert_text P x (y ∷ ys) px h = elim (Bool-cases (is_before x y)) [
  | inl t ↦ rw t (px, h)
  | inr f ↦ rw f (h.0, All-insert_text P x ys px h.1)
]

All-sort_texts : (P : String → Type 0) (xs : List String) → All P xs → All P (sort_texts xs)
unfolding sort_texts
All-sort_texts P [] h = tt
All-sort_texts P (x ∷ xs) h = All-insert_text P x (sort_texts xs) h.0 (All-sort_texts P xs h.1)

strict : (o : Ordering) → is_le o ≡ true → is_eq o ≡ false → is_lt o ≡ true
strict Ordering.lt h k = refl
strict Ordering.eq h k = cc
strict Ordering.gt h k = cc

insert_text-IsAscending :
    (x : String) (xs : List String) → Differs x xs → IsAscending xs → IsAscending (insert_text x xs)
unfolding insert_text
insert_text-IsAscending x [] d h = (tt, tt)
insert_text-IsAscending x (y ∷ ys) d h = elim (Bool-cases (is_before x y)) [
  | inl t ↦
      let less : is_less x y ≡ true = strict (compare x y) t d.0 in
      rw t (
        (
          less,
          All-map (λ z. is_less y z ≡ true) (λ z. is_less x z ≡ true) ys
              (λ z l. is_less_trans x y z less l) h.0,
        ),
        h,
      )
  | inr f ↦ rw f (
    All-insert_text (λ z. is_less y z ≡ true) x ys (less_or_before x y f) h.0,
    insert_text-IsAscending x ys d.1 h.1,
  )
]

pub sort_texts-IsAscending : (xs : List String) → IsDistinct xs → IsAscending (sort_texts xs)
unfolding sort_texts
sort_texts-IsAscending [] h = tt
sort_texts-IsAscending (x ∷ xs) h =
    insert_text-IsAscending x (sort_texts xs) (All-sort_texts _ xs h.0)
      (sort_texts-IsAscending xs h.1)
