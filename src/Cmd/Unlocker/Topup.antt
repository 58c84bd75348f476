-- ===== src/Cmd/Unlocker/Topup.antt =====
-- The list of the accounts that need gas, which cmd/unlocker prints at its end.
use eth_custodial.Prelude.{
  ◌≡◌, refl, String, Bool, false, List, [], ◌∷◌, inl, inr, Bool-cases, str_eq,
}
use mathlib.Core.List.{map}
use mathlib.Core.Bool.{true≢false}
use eth_custodial.Worker.Unlocker.{has_account}
use eth_custodial.Cmd.Unlocker.Ascending.{IsAscending, IsDistinct, Differs, sort_texts-IsAscending}
use eth_custodial.Store.Results.{Error, Result, ok, err}
use eth_custodial.World.Inert.{Yields}
use eth_custodial.Runtime.{Env}
use eth_custodial.Cmd.Unlocker.Text.{sort_texts}
use eth_custodial.Cmd.Unlocker.Nodes.{Node}
use eth_custodial.Cmd.Unlocker.{Tally, Outcome, count, run, add_account}
use eth_custodial.Cmd.Unlocker.Start.{csv_line, gas_topup_csv}
use eth_custodial.Cmd.Unlocker.Tallies.{Gives, Gives-any, Gives-run}

-- The lines of accounts in ascending order, each once.
abbrev pub IsTopup : List String → Type 0
IsTopup ls = (accounts : List String) × (ls ≡ map (csv_line "0.5") accounts) × IsAscending accounts

has_account-Differs : (x : String) (xs : List String) → has_account x xs ≡ false → Differs x xs
unfolding has_account
has_account-Differs x [] h = tt
has_account-Differs x (y ∷ ys) h = elim (Bool-cases (str_eq x y)) [
  | inl t ↦ absurd (true≢false (rw t at h))
  | inr f ↦ (f, has_account-Differs x ys (rw f at h))
]

add_account-IsDistinct :
    (x : String) (xs : List String) → IsDistinct xs → IsDistinct (add_account x xs)
add_account-IsDistinct x xs h = elim (Bool-cases (has_account x xs)) [
  | inl t ↦ rw t h
  | inr f ↦ rw f (has_account-Differs x xs f, h)
]

abbrev pub NamesOnce : Tally → Type 0
NamesOnce t = IsDistinct t.no_gas_accounts

count-NamesOnce :
    (account : String) (o : Outcome) (t : Tally) → NamesOnce t → NamesOnce (count account o t)
count-NamesOnce account Outcome.was_resubmitted t h = h
count-NamesOnce account Outcome.was_resigned t h = h
count-NamesOnce account Outcome.was_already_done t h = h
count-NamesOnce account Outcome.has_failed t h = h
count-NamesOnce account Outcome.lacks_gas t h = add_account-IsDistinct account t.no_gas_accounts h
count-NamesOnce account Outcome.would_resubmit t h = h

pub run-NamesOnce :
    (env : Env) (text : Error → String) (nodes : List Node) (dry : Bool)
    → Gives NamesOnce (run env text nodes dry)
run-NamesOnce env text nodes dry =
    Gives-run env text nodes dry (λ o. Unit) NamesOnce
      (record {
        outcomes = λ account n o. Gives-any _;
        counted = λ account o t g h. count-NamesOnce account o t h;
        skipped = λ t h. h;
      })
      tt

pub gas_topup_csv-IsTopup :
    (r : Result Tally)
    → Yields NamesOnce r
    → Yields (λ t. IsTopup (gas_topup_csv t.no_gas_accounts "0.5")) r
unfolding gas_topup_csv
gas_topup_csv-IsTopup (ok t) h =
    (sort_texts t.no_gas_accounts, refl, sort_texts-IsAscending t.no_gas_accounts h)
gas_topup_csv-IsTopup (err e) h = tt
