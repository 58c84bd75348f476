-- ===== src/Cmd/Unlocker.antt =====
-- cmd/unlocker/main.go: the command that unlocks the accounts with stuck transactions by hand, and
-- counts what it did.
pub mod Nodes
pub mod Resign
pub mod DryRun
pub mod Count
pub mod Calls
pub mod Safety
pub mod Text
pub mod Start
pub mod Tallies
pub mod Ascending
pub mod Topup
pub mod Whole
use eth_custodial.Prelude.{
  ℕ, suc, ◌-◌, String, Bool, true, false, Option, none, some, List, [], ◌∷◌, ltb, if◌then◌else◌,
}
use eth_custodial.Jobs.{Bytes}
use eth_custodial.Store.Types.{in_network}
use eth_custodial.Store.Tables.{Otx}
use eth_custodial.Store.Results.{Error, Result, ok, err, send_refused, panicked}
use eth_custodial.Store.Unlocks.{get_stuck_otx, get_otx_at_or_above}
use eth_custodial.World.{M, pure, raise, attempt, ◌>>=◌, ◌>>◌}
use eth_custodial.Runtime.{Env}
use eth_custodial.Pg
use eth_custodial.Worker.Unlocker.{has_account, affected_accounts}
use eth_custodial.Worker.Unlocker.Refusal.{
  Kind, nonce_low, gas_price, replacement_underpriced, no_gas, unknown, classify,
}
use Nodes.{Node, get_nonce, send_raw_tx}
use Resign.{
  update_dispatch_status, update_otx_and_dispatch, check_receipt_and_update, resign_and_submit,
}

-- `stats`, and the accounts that need gas.
pub record Tally : Type 0 where
  pub resubmitted : ℕ
  pub resigned : ℕ
  pub already_done : ℕ
  pub skipped : ℕ
  pub failed : ℕ
  pub no_gas_accounts : List String

abbrev pub no_tally : Tally
no_tally = record {
  resubmitted = 0;
  resigned = 0;
  already_done = 0;
  skipped = 0;
  failed = 0;
  no_gas_accounts = [];
}

-- What becomes of one transaction.
pub data Outcome : Type 0 where
  was_resubmitted was_resigned was_already_done has_failed lacks_gas would_resubmit : Outcome

abbrev pub add_account : String → List String → List String
add_account a as_ = if has_account a as_ then as_ else a ∷ as_

abbrev pub skip : Tally → Tally
skip t = record t { skipped = suc t.skipped }

abbrev pub count : String → Outcome → Tally → Tally
count account was_resubmitted t = record t { resubmitted = suc t.resubmitted }
count account was_resigned t = record t { resigned = suc t.resigned }
count account was_already_done t = record t { already_done = suc t.already_done }
count account has_failed t = record t { failed = suc t.failed }
count account lacks_gas t = record t {
  skipped = suc t.skipped;
  no_gas_accounts = add_account account t.no_gas_accounts;
}
count account would_resubmit t = t

abbrev pub is_out_of_gas : Outcome → Bool
is_out_of_gas lacks_gas = true
is_out_of_gas _ = false

-- An error that is logged; a panic ends the command.
abbrev pub logged : {A : Type 0} → Result A → Outcome → Outcome → M Outcome
logged (ok _) good bad = pure good
logged (err panicked) good bad = raise panicked
logged (err e) good bad = pure bad

abbrev pub kind_outcome : Kind → Outcome
kind_outcome no_gas = lacks_gas
kind_outcome _ = has_failed

-- `text` is the text of an error of a library.
module _ (env : Env) (text : Error → String) (nodes : List Node) (dry_run : Bool) where
  abbrev pub error_text : Error → String
  error_text (send_refused msg) = msg
  error_text e = text e

  abbrev pub store_resigned : Otx → Result (String × String) → M Outcome
  store_resigned otx (ok (raw, hash)) =
      attempt (update_otx_and_dispatch env otx.id raw hash) >>= λ r.
      logged r was_resigned has_failed
  store_resigned otx (err panicked) = raise panicked
  store_resigned otx (err e) = pure (kind_outcome (classify (error_text e)))

  unfoldable pub settle : Otx → M Outcome
  settle otx = attempt (check_receipt_and_update env nodes otx) >>= λ r.
      logged r was_already_done was_already_done

  unfoldable pub resign : Otx → String → M Outcome
  resign otx account = attempt (resign_and_submit env nodes otx account) >>= store_resigned otx

  -- The switch on `classifyRPCError`; a network error is an unknown one to it.
  abbrev pub on_kind : Otx → String → Kind → M Outcome
  on_kind otx account nonce_low = settle otx
  on_kind otx account gas_price = resign otx account
  on_kind otx account replacement_underpriced = resign otx account
  on_kind otx account no_gas = pure lacks_gas
  on_kind otx account unknown = pure has_failed

  unfoldable pub on_answer : Otx → String → Option String → M Outcome
  on_answer otx account none = attempt (update_dispatch_status env otx.id in_network) >>= λ r.
      logged r was_resubmitted was_resubmitted
  on_answer otx account (some msg) = on_kind otx account (classify msg)

  abbrev pub resubmit : Otx → String → Option Bytes → M Outcome
  resubmit otx account none = pure has_failed
  resubmit otx account (some raw) = send_raw_tx nodes raw >>= on_answer otx account

  -- The body of the inner loop.
  unfoldable pub process_otx : String → ℕ → Otx → M Outcome
  process_otx account network_nonce otx =
      if ltb otx.nonce network_nonce
      then settle otx
      else if dry_run
      then pure would_resubmit
      else resubmit otx account (env.hex_decode otx.raw_tx)

  -- The inner loop; after a lack of gas the rest of the account is skipped.
  unfoldable pub process_otxs : String → ℕ → List Otx → Bool → Tally → M Tally
  process_otxs account n [] skips t = pure t
  process_otxs account n (o ∷ os) true t = process_otxs account n os true (skip t)
  process_otxs account n (o ∷ os) false t = process_otx account n o >>= λ r.
      process_otxs account n os (is_out_of_gas r) (count account r t)

  abbrev pub with_otxs : String → ℕ → Tally → Result (List Otx) → M Tally
  with_otxs account n t (ok otxs) = process_otxs account n otxs false t
  with_otxs account n t (err panicked) = raise panicked
  with_otxs account n t (err e) = pure (skip t)

  unfoldable pub with_nonce : String → Tally → Result ℕ → M Tally
  with_nonce account t (ok n) =
      attempt (Pg.query env (λ d. ok (get_otx_at_or_above account n d))) >>= with_otxs account n t
  with_nonce account t (err panicked) = raise panicked
  with_nonce account t (err e) = pure (skip t)

  unfoldable pub process_account : String → Tally → M Tally
  process_account account t =
      attempt (get_nonce nodes (env.common_address account)) >>= with_nonce account t

  -- The outer loop.
  unfoldable pub process_accounts : List String → Tally → M Tally
  process_accounts [] t = pure t
  process_accounts (a ∷ as_) t = process_account a t >>= λ t'. process_accounts as_ t'

  -- `main`, once the store and the nodes are there.
  unfoldable pub run : M Tally
  run = do
    t ← Pg.moment env
    stuck ← Pg.query env (λ d. ok (get_stuck_otx (env.now t - 300) d))
    process_accounts (env.map_order t (affected_accounts stuck)) no_tally
