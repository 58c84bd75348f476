-- ===== src/Store/Unlocks.antt =====
-- The statements that the unlocker sends itself (internal/worker/unlocker.go).
use eth_custodial.Prelude.{
  ℕ, String, Bool, true, false, not, ◌&&◌, ◌||◌, List, [], ◌∷◌, leb, ◌==◌, if◌then◌else◌, str_eq,
  take, sort_by, keep,
}
use eth_custodial.Store.Types.{DispatchStatus, success, reverted, external_dispatch}
use eth_custodial.Store.Tables.{OtxRow, DispatchRow, Db, Otx}
use eth_custodial.Store.Results.{Result, ok, err, no_rows}
use eth_custodial.Store.Selects.{join_otx, all_otx, is_manual}

-- `status IN ('SUCCESS', 'REVERTED', 'EXTERNAL_DISPATCH')`
abbrev pub is_final : DispatchStatus → Bool
is_final success = true
is_final reverted = true
is_final external_dispatch = true
is_final _ = false

abbrev is_stuck : ℕ → DispatchRow → Bool
is_stuck cutoff r = not (is_final r.status) && leb r.updated_at cutoff

-- `getStuckOTXs`
unfoldable pub get_stuck_otx : ℕ → Db → List Otx
unfolding join_otx sort_by
get_stuck_otx cutoff d = take 100 (
    sort_by (λ o. o.id)
      (keep (λ o. not (is_manual o.otx_type))
        (join_otx d.otx d.keystore (keep (is_stuck cutoff) d.dispatch))))

-- `getOTXsFromNonce`
unfoldable pub get_otx_from_nonce : String → ℕ → Db → List Otx
unfolding join_otx sort_by
get_otx_from_nonce account from d =
    sort_by (λ o. o.nonce)
      (keep
        (λ o.
          str_eq o.signer_account account && (leb from o.nonce || not (is_final o.dispatch_status)))
        (all_otx d))

-- `getOTXsFromNonce` of cmd/unlocker
unfoldable pub get_otx_at_or_above : String → ℕ → Db → List Otx
unfolding join_otx sort_by
get_otx_at_or_above account from d =
    sort_by (λ o. o.nonce)
      (keep (λ o. str_eq o.signer_account account && leb from o.nonce) (all_otx d))

abbrev is_success : DispatchStatus → Bool
is_success success = true
is_success _ = false

abbrev first_hash : List Otx → Result String
first_hash [] = err no_rows
first_hash (o ∷ rest) = ok o.tx_hash

-- The anchor of `recoverOrphanedNonce`: the account's transaction with the next nonce, if it
-- succeeded.
unfoldable pub get_anchor_hash : String → ℕ → Db → Result String
unfolding join_otx
get_anchor_hash account nonce d = first_hash (
    keep (λ o. str_eq o.signer_account account && o.nonce == nonce && is_success o.dispatch_status)
      (all_otx d))

unfoldable pub set_tx : ℕ → String → String → List OtxRow → List OtxRow
set_tx id raw hash [] = []
set_tx id raw hash (o ∷ os) =
    (if o.id == id then record o { raw_tx = raw; tx_hash = hash } else o) ∷ set_tx id raw hash os

-- `UPDATE otx SET raw_tx = $1, tx_hash = $2 WHERE id = $3`
unfoldable pub set_otx_tx : ℕ → String → String → Db → Db
unfolding set_tx
set_otx_tx id raw hash d = record d { otx = set_tx id raw hash d.otx }

unfoldable pub set_hash : ℕ → String → List OtxRow → List OtxRow
set_hash id hash [] = []
set_hash id hash (o ∷ os) =
    (if o.id == id then record o { tx_hash = hash } else o) ∷ set_hash id hash os

-- `UPDATE otx SET tx_hash = $1 WHERE id = $2`
unfoldable pub set_otx_hash : ℕ → String → Db → Db
unfolding set_hash
set_otx_hash id hash d = record d { otx = set_hash id hash d.otx }
