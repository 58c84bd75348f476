-- ===== src/Store/Queries.antt =====
-- The queries of queries.sql, one function each, on the tables: what the methods of
-- internal/store/{key,nonce,otx,dispatch}.go make of the answer is in the result.
mod Keys
pub mod Inversion
use eth_custodial.Prelude.{
  ℕ, ◌+◌, ◌-◌, String, Bool, false, not, ◌&&◌, ◌||◌, Option, none, some, List, [], ◌∷◌, ◌++◌, leb,
  ltb, ◌==◌, if◌then◌else◌,
}
use eth_custodial.Jobs.{Job}
use eth_custodial.Store.Types.{DispatchStatus, is_status_type, is_otx_type}
use eth_custodial.Store.Tables.{NonceRow, OtxRow, DispatchRow, Db, NewOtx}
use eth_custodial.Store.Results.{
  Result, ok, err, no_rows, foreign_key, not_null, out_of_range, unique,
}
unfoldable pub use Keys.*

-- The largest value of a Postgres INT column.
abbrev pub int_max : ℕ
int_max = 2147483647

pub set_next_nonce : ℕ → ℕ → List NonceRow → List NonceRow
set_next_nonce i n [] = []
set_next_nonce i n (r ∷ rs) =
    if r.keystore_id == i then record r { next_nonce = n } ∷ rs else r ∷ set_next_nonce i n rs

abbrev peek : Option ℕ → Result ℕ
peek none = err no_rows
peek (some n) = ok (n - 1)

abbrev peek_row : Result (Option ℕ) → List NonceRow → Result ℕ
unfolding next_nonce_of
peek_row (err e) rs = err e
peek_row (ok none) rs = err no_rows
peek_row (ok (some i)) rs = peek (next_nonce_of i rs)

-- peek-nonce: the last nonce given out, and 0 where there is none.
unfoldable pub peek_nonce : String → Db → Result ℕ
unfolding key_id next_nonce_of
peek_nonce pk d = peek_row (key_id pk d) d.noncestore

abbrev bump_row : ℕ → Option ℕ → Db → Result (ℕ × Db)
unfolding set_next_nonce
bump_row i none d = err no_rows
bump_row i (some n) d =
    if ltb n int_max
    then ok (n, record d { noncestore = set_next_nonce i (n + 1) d.noncestore })
    else err out_of_range

abbrev pub acquire : Result (Option ℕ) → Db → Result (ℕ × Db)
unfolding set_next_nonce next_nonce_of
acquire (err e) d = err e
acquire (ok none) d = err no_rows
acquire (ok (some i)) d = bump_row i (next_nonce_of i d.noncestore) d

-- acquire-nonce
unfoldable pub acquire_nonce : String → Db → Result (ℕ × Db)
unfolding key_id next_nonce_of set_next_nonce
acquire_nonce pk d = acquire (key_id pk d) d

abbrev assign_nonce : Result (Option ℕ) → ℕ → Db → Result Db
unfolding set_next_nonce
assign_nonce (err e) n d = err e
assign_nonce (ok none) n d = ok d
assign_nonce (ok (some i)) n d =
    if leb n int_max
    then ok (record d { noncestore = set_next_nonce i n d.noncestore })
    else err out_of_range

-- set-account-nonce
unfoldable pub set_account_nonce : String → ℕ → Db → Result Db
unfolding key_id set_next_nonce
set_account_nonce pk n d = assign_nonce (key_id pk d) n d

abbrev pub otx_row : ℕ → ℕ → ℕ → NewOtx → OtxRow
otx_row id now signer o = record {
  id = id;
  tracking_id = o.tracking_id;
  otx_type = o.otx_type;
  signer_account = signer;
  raw_tx = o.raw_tx;
  tx_hash = o.tx_hash;
  nonce = o.nonce;
  replaced = false;
  created_at = now;
  updated_at = now;
}

unfoldable pub has_otx : ℕ → List OtxRow → Bool
has_otx i [] = false
has_otx i (o ∷ os) = o.id == i || has_otx i os

abbrev add_otx : Result (Option ℕ) → ℕ → ℕ → NewOtx → Db → Result Db
unfolding is_otx_type has_otx
add_otx (err e) id now o d = err e
add_otx (ok none) id now o d = err not_null
add_otx (ok (some i)) id now o d =
    if ltb int_max o.nonce
    then err out_of_range
    else if has_otx id d.otx
    then err unique
    else if is_otx_type o.otx_type
    then ok (record d { otx = otx_row id now i o ∷ d.otx })
    else err foreign_key

-- insert-otx; `id` is drawn from the sequence.
unfoldable pub insert_otx : ℕ → ℕ → NewOtx → Db → Result Db
unfolding key_id is_otx_type has_otx
insert_otx id now o d = add_otx (key_id o.signer_account d) id now o d

unfoldable pub has_dispatch_id : ℕ → List DispatchRow → Bool
has_dispatch_id i [] = false
has_dispatch_id i (r ∷ rs) = r.id == i || has_dispatch_id i rs

-- insert-dispatch-tx; `id` is drawn from the sequence.
unfoldable pub insert_dispatch : ℕ → ℕ → ℕ → DispatchStatus → Db → Result Db
unfolding has_otx is_status_type has_dispatch_id
insert_dispatch id now otx_id status d =
    if has_dispatch_id id d.dispatch
    then err unique
    else if has_otx otx_id d.otx && is_status_type status
    then ok (record d {
      dispatch =
          record { id = id; otx_id = otx_id; status = status; updated_at = now } ∷ d.dispatch;
    })
    else err foreign_key

unfoldable pub set_status : ℕ → ℕ → DispatchStatus → List DispatchRow → List DispatchRow
set_status otx_id now s [] = []
set_status otx_id now s (r ∷ rs) =
    (if r.otx_id == otx_id then record r { status = s; updated_at = now } else r)
    ∷ set_status otx_id now s rs

unfoldable pub has_dispatch : ℕ → List DispatchRow → Bool
has_dispatch i [] = false
has_dispatch i (r ∷ rs) = r.otx_id == i || has_dispatch i rs

-- update-dispatch-tx-status, with the trigger `update_dispatch_timestamp`; the foreign key is
-- checked for the rows that change.
unfoldable pub update_dispatch_status : ℕ → ℕ → DispatchStatus → Db → Result Db
unfolding set_status has_dispatch is_status_type
update_dispatch_status now otx_id s d =
    if has_dispatch otx_id d.dispatch && not (is_status_type s)
    then err foreign_key
    else ok (record d { dispatch = set_status otx_id now s d.dispatch })

-- The rows that River adds for new jobs.
abbrev pub add_jobs : List Job → Db → Db
add_jobs js d = record d { river_job = d.river_job ++ js }
