-- ===== src/Store/Selects/Accounts.antt =====
-- The three listings of an account's transactions (GetOTXByAccount and its two companions): whose
-- they are, and how many.
use eth_custodial.Prelude.{
  ℕ, ◌+◌, ◌≤◌, ◌≡◌, refl, String, Bool, true, false, ◌&&◌, List, [], ◌∷◌, arith, All, All-map,
  length, keep, sort_by, take, str_eq, eq_iff, ltb,
}
use eth_custodial.Prelude.Sorting.{All-sort_by, All-keep, All-take, length-take}
use mathlib.Core.List.{reverse, reverse_aux}
use eth_custodial.Api.Otx.{}
use eth_custodial.Store.Tables.{Db, Otx}
use eth_custodial.Store.Selects.{
  all_otx, get_otx_by_account, get_otx_by_account_next, get_otx_by_account_previous,
}

-- Transactions of one account, at most so many.
pub record IsPage (pk : String) (limit : ℕ) (page : List Otx) : Type 0 where
  pub account : All (λ o. o.signer_account ≡ pk) page
  pub short : length page ≤ limit

module _ {A : Type 0} where
  All-reverse_aux :
      (P : A → Type 0) (xs ys : List A) → All P xs → All P ys → All P (reverse_aux xs ys)
  All-reverse_aux P [] ys h k = k
  All-reverse_aux P (x ∷ xs) ys h k = All-reverse_aux P xs (x ∷ ys) h.1 (h.0, k)

  length-reverse_aux : (xs ys : List A) → length (reverse_aux xs ys) ≡ length xs + length ys
  length-reverse_aux [] ys = omega arith
  length-reverse_aux (x ∷ xs) ys = ground (arith, length-reverse_aux xs (x ∷ ys))

both_true : (a b : Bool) → (a && b) ≡ true → a ≡ true
both_true true b h = refl
both_true false b h = cc

-- What is cut from the sorted rows of an account.
cut :
    (pk : String) (limit : ℕ) (p : Otx → Bool) (rows : List Otx)
    → ((o : Otx) → p o ≡ true → o.signer_account ≡ pk)
    → IsPage pk limit (take limit (sort_by (λ o. o.id) (keep p rows)))
cut pk limit p rows h = record {
  account =
      All-take (λ o. o.signer_account ≡ pk) limit _
        (All-sort_by (λ o. o.signer_account ≡ pk) (λ o. o.id) (keep p rows)
          (All-map (λ o. p o ≡ true) (λ o. o.signer_account ≡ pk) (keep p rows) h
            (All-keep p rows)));
  short = (length-take limit (sort_by (λ o. o.id) (keep p rows))).0;
}

pub first-IsPage :
    (pk : String) (limit : ℕ) (d : Db) → IsPage pk limit (get_otx_by_account pk limit d)
unfolding get_otx_by_account
first-IsPage pk limit d = cut pk limit _ (all_otx d) (λ o h. (eq_iff o.signer_account pk).0 h)

pub next-IsPage :
    (pk : String) (c limit : ℕ) (d : Db) → IsPage pk limit (get_otx_by_account_next pk c limit d)
unfolding get_otx_by_account_next
next-IsPage pk c limit d =
    cut pk limit _ (all_otx d) (λ o h. (eq_iff o.signer_account pk).0 (both_true _ _ h))

pub previous-IsPage :
    (pk : String) (c limit : ℕ) (d : Db)
    → IsPage pk limit (get_otx_by_account_previous pk c limit d)
unfolding get_otx_by_account_previous
previous-IsPage pk c limit d =
    let p : Otx → Bool = λ o. str_eq o.signer_account pk && ltb o.id c in
    let P : Otx → Type 0 = λ o. o.signer_account ≡ pk in
    let rows = sort_by (λ o. o.id) (keep p (all_otx d)) in
    let back = take limit (reverse rows) in
    let own : All P rows =
      All-sort_by P (λ o. o.id) (keep p (all_otx d))
        (All-map (λ o. p o ≡ true) P (keep p (all_otx d))
          (λ o h. (eq_iff o.signer_account pk).0 (both_true _ _ h)) (All-keep p (all_otx d))) in
    record {
      account =
          All-reverse_aux P back []
            (All-take P limit (reverse rows) (All-reverse_aux P rows [] own tt)) tt;
      short = ground (arith, length-reverse_aux back [], (length-take limit (reverse rows)).0);
    }
