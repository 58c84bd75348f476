-- ===== src/Worker/Unlocker.antt =====
-- internal/worker/unlocker.go: the periodic job that hands stuck transactions to the chain again,
-- from the chain's nonce of each account on, and finds out what became of the others.
pub mod Refusal
pub mod Recovery
pub mod Resign
pub mod Fees
pub mod Scan
pub mod Outcome
pub mod Agreement
use eth_custodial.Prelude.{
  ℕ, ◌+◌, ◌-◌, String, Bool, true, false, not, Option, none, some, List, [], ◌∷◌, if◌then◌else◌,
  str_eq,
}
use eth_custodial.Jobs.{Address}
use eth_custodial.Store.Types.{in_network}
use eth_custodial.Store.Tables.{Otx}
use eth_custodial.Store.Results.{Error, Result, ok, err, or_error, bad_hex, send_refused, panicked}
use eth_custodial.Store.Unlocks.{get_stuck_otx, get_otx_from_nonce}
use eth_custodial.World.{M, pure, raise, lift, attempt, ◌>>=◌, ◌>>◌}
use eth_custodial.Runtime.{Env}
use eth_custodial.Chain.{call_send_raw_tx}
use eth_custodial.Pg
use Refusal.{
  Kind, nonce_low, gas_price, replacement_underpriced, no_gas, unknown, refusal, classify,
}
use Recovery.{call_nonce, set_status, check_receipt}
use Resign.{resign_and_resubmit}

-- `affectedAccounts`: the keys of the map.
unfoldable pub has_account : String → List String → Bool
has_account a [] = false
has_account a (b ∷ rest) = if str_eq a b then true else has_account a rest

unfoldable pub affected_accounts : List Otx → List String
unfolding has_account
affected_accounts [] = []
affected_accounts (o ∷ rest) =
    let accounts = affected_accounts rest in
    if has_account o.signer_account accounts then accounts else o.signer_account ∷ accounts

-- What follows a call whose error is logged; a panic is not caught.
abbrev pub go_on : Result Unit → M Unit → M Unit → M Unit
go_on (ok _) next stop = next
go_on (err panicked) next stop = raise panicked
go_on (err e) next stop = stop

module _ (env : Env) where
  abbrev pub on_refusal : Otx → String → Kind → M Unit
  on_refusal otx msg nonce_low = check_receipt env otx
  on_refusal otx msg gas_price = resign_and_resubmit env otx
  on_refusal otx msg replacement_underpriced = resign_and_resubmit env otx
  on_refusal otx msg no_gas = pure tt
  on_refusal otx msg unknown = raise (send_refused msg)

  unfoldable pub after_resubmit : Otx → Option String → M Unit
  after_resubmit otx none = set_status env otx.id in_network
  after_resubmit otx (some msg) = on_refusal otx msg (classify msg)

  -- `processOTX`
  unfoldable pub process_otx : Otx → M Unit
  process_otx otx = do
    raw ← lift (or_error (env.hex_decode otx.raw_tx) bad_hex)
    answer ← call_send_raw_tx env raw
    after_resubmit otx (refusal answer)

  -- The loop of `processAccount`: the first failure ends it, and is no failure of the account.
  unfoldable pub process_sequence : List Otx → M Unit
  process_sequence [] = pure tt
  process_sequence (otx ∷ rest) =
      let next = process_sequence rest in attempt (process_otx otx) >>= λ r. go_on r next (pure tt)

  -- `processAccount`
  unfoldable pub process_account : String → M Unit
  process_account account = do
    nonce ← call_nonce env (env.common_address account)
    otxs ← Pg.query env (λ d. ok (get_otx_from_nonce account nonce d))
    process_sequence otxs

  unfoldable pub process_accounts : List String → M Unit
  process_accounts [] = pure tt
  process_accounts (account ∷ rest) =
      let next = process_accounts rest in
      attempt (process_account account) >>= λ r. go_on r next next

  -- `UnlockerWorker.Work`; `unlockerInterval` is five minutes.
  unfoldable pub unlocker_work : M Unit
  unlocker_work = do
    t ← Pg.moment env
    stuck ← Pg.query env (λ d. ok (get_stuck_otx (env.now t - 300) d))
    process_accounts (env.map_order t (affected_accounts stuck))
