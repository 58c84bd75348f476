-- ===== src/Store/Selects/Pages.antt =====
-- The listings of an account's transactions (internal/store/otx.go, GetOTXByAccountNext) and of a
-- tracking id's (GetOTXByTrackingID).
use eth_custodial.Prelude.{ℕ, ◌<◌, ◌≡◌, String, Bool, ◌&&◌, ltb, str_eq}
use eth_custodial.Store.Tables.{Otx}

-- The rows that the page is cut from.
abbrev pub after_cursor : String → ℕ → Otx → Bool
after_cursor pk cursor o = str_eq o.signer_account pk && ltb cursor o.id

abbrev pub IsEligible : String → ℕ → Otx → Type 0
IsEligible pk cursor o = (o.signer_account ≡ pk) × (cursor < o.id)
