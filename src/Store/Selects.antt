-- ===== src/Store/Selects.antt =====
-- The SELECT queries on `otx` of queries.sql: joins with `keystore` and `dispatch`, filters, order
-- and limit. A row of `otx` comes back once for each row of `dispatch` that refers to it.
pub mod Pages
pub mod ByHash
pub mod Accounts
use eth_custodial.Prelude.{
  ℕ, String, Bool, true, false, not, ◌&&◌, List, [], ◌∷◌, ◌++◌, ltb, ◌==◌, if◌then◌else◌, str_eq,
  take, sort_by, keep,
}
use mathlib.Core.List.{reverse}
use eth_custodial.Store.Types.{
  DispatchStatus, pending, success, reverted, OtxType, other_manual, generic_sign,
}
use eth_custodial.Store.Tables.{KeyRow, OtxRow, DispatchRow, Db, Otx}
use eth_custodial.Store.Results.{Result, ok, err, no_rows, too_many_rows}

abbrev pub otx_of_row : OtxRow → String → DispatchStatus → Otx
otx_of_row o pk s = record {
  id = o.id;
  tracking_id = o.tracking_id;
  otx_type = o.otx_type;
  signer_account = pk;
  raw_tx = o.raw_tx;
  tx_hash = o.tx_hash;
  nonce = o.nonce;
  replaced = o.replaced;
  created_at = o.created_at;
  updated_at = o.updated_at;
  dispatch_status = s;
}

-- `INNER JOIN dispatch ON otx.id = dispatch.otx_id`
pub join_dispatch : OtxRow → String → List DispatchRow → List Otx
join_dispatch o pk [] = []
join_dispatch o pk (r ∷ rs) =
    let rest = join_dispatch o pk rs in
    if r.otx_id == o.id then otx_of_row o pk r.status ∷ rest else rest

-- `INNER JOIN keystore ON otx.signer_account = keystore.id`
pub join_keystore : OtxRow → List KeyRow → List DispatchRow → List Otx
unfolding join_dispatch
join_keystore o [] ds = []
join_keystore o (k ∷ ks) ds =
    let rest = join_keystore o ks ds in
    if k.id == o.signer_account then join_dispatch o k.public_key ds ++ rest else rest

unfoldable pub join_otx : List OtxRow → List KeyRow → List DispatchRow → List Otx
unfolding join_keystore
join_otx [] ks ds = []
join_otx (o ∷ os) ks ds = join_keystore o ks ds ++ join_otx os ks ds

abbrev pub all_otx : Db → List Otx
unfolding join_otx
all_otx d = join_otx d.otx d.keystore d.dispatch

-- get-otx-by-tracking-id
unfoldable pub get_otx_by_tracking_id : String → Db → List Otx
unfolding join_otx sort_by
get_otx_by_tracking_id tracking_id d =
    sort_by (λ o. o.nonce) (keep (λ o. str_eq o.tracking_id tracking_id) (all_otx d))

-- get-otx-by-account
unfoldable pub get_otx_by_account : String → ℕ → Db → List Otx
unfolding join_otx sort_by
get_otx_by_account pk limit d =
    take limit (sort_by (λ o. o.id) (keep (λ o. str_eq o.signer_account pk) (all_otx d)))

-- get-otx-by-account-next
unfoldable pub get_otx_by_account_next : String → ℕ → ℕ → Db → List Otx
unfolding join_otx sort_by
get_otx_by_account_next pk cursor limit d =
    take limit
      (sort_by (λ o. o.id) (keep (λ o. str_eq o.signer_account pk && ltb cursor o.id) (all_otx d)))

-- get-otx-by-account-previous: the last rows before the cursor, in ascending order again.
unfoldable pub get_otx_by_account_previous : String → ℕ → ℕ → Db → List Otx
unfolding join_otx sort_by
get_otx_by_account_previous pk cursor limit d = reverse (
    take limit (
      reverse (
        sort_by (λ o. o.id)
          (keep (λ o. str_eq o.signer_account pk && ltb o.id cursor) (all_otx d)))))

abbrev pub is_settled : DispatchStatus → Bool
is_settled success = true
is_settled reverted = true
is_settled pending = true
is_settled _ = false

abbrev pub is_manual : OtxType → Bool
is_manual generic_sign = true
is_manual other_manual = true
is_manual _ = false

-- get-failed-otx: neither settled nor pending, and not signed for someone else.
unfoldable pub get_failed_otx : Db → List Otx
unfolding join_otx sort_by
get_failed_otx d = take 100 (
    sort_by (λ o. o.id)
      (keep (λ o. not (is_settled o.dispatch_status) && not (is_manual o.otx_type)) (all_otx d)))

abbrev scan_otx : List Otx → Result Otx
scan_otx [] = err no_rows
scan_otx (x ∷ []) = ok x
scan_otx (x ∷ y ∷ r) = err too_many_rows

pub join_by_hash : (ℕ → String) → String → List OtxRow → List DispatchRow → List Otx
unfolding join_dispatch
join_by_hash int_text hash [] ds = []
join_by_hash int_text hash (o ∷ os) ds =
    let rest = join_by_hash int_text hash os ds in
    if str_eq o.tx_hash hash then join_dispatch o (int_text o.signer_account) ds ++ rest else rest

-- get-otx-by-tx-hash. The query has no join with the keystore: what comes back as the signer is
-- the number `otx.signer_account`, as the driver writes it.
unfoldable pub get_otx_by_tx_hash : (ℕ → String) → String → Db → Result Otx
unfolding join_by_hash
get_otx_by_tx_hash int_text hash d = scan_otx (join_by_hash int_text hash d.otx d.dispatch)
