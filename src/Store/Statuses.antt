-- ===== src/Store/Statuses.antt =====
-- The statuses that a dispatch row can take, and what `UpdateDispatchTxStatus` of
-- internal/store/dispatch.go changes.
use eth_custodial.Prelude.{
  ℕ, ◌≡◌, ◌≢◌, refl, true, List, [], ◌∷◌, arith, ◌==◌, if◌then◌else◌, Option, none, some, ◌⊎◌, inl,
  inr,
}
use eth_custodial.Store.Types.{DispatchStatus, unknown_rpc_error, is_status_type}
use eth_custodial.Store.Tables.{Db, DispatchRow}
use eth_custodial.Store.Results.{ok, err, foreign_key}
use eth_custodial.Store.Queries.{set_status, has_dispatch, update_dispatch_status}

status_cases :
    (s : DispatchStatus)
    → (s ≡ unknown_rpc_error) ⊎ ((is_status_type s ≡ true) × (s ≢ unknown_rpc_error))
unfolding is_status_type
status_cases unknown_rpc_error = inl refl
status_cases _ = inr (refl, cc)

-- The status of a transaction's dispatch row.
unfoldable pub status_of : ℕ → List DispatchRow → Option DispatchStatus
status_of i [] = none
status_of i (r ∷ rs) = if r.otx_id == i then some r.status else status_of i rs

pub set_status_own :
    (i now : ℕ) (s : DispatchStatus) (rs : List DispatchRow)
    → has_dispatch i rs ≡ true
    → status_of i (set_status i now s rs) ≡ some s
unfolding status_of set_status has_dispatch
set_status_own i now s [] h = cc
set_status_own i now s (r ∷ rs) h = ground (arith, set_status_own i now s rs)

set_status_other :
    (i j now : ℕ) (s : DispatchStatus) (rs : List DispatchRow)
    → i ≢ j
    → status_of j (set_status i now s rs) ≡ status_of j rs
unfolding status_of set_status
set_status_other i j now s [] h = refl
set_status_other i j now s (r ∷ rs) h = ground (arith, set_status_other i j now s rs)

-- The update of a transaction that is tracked.
pub update_tracked :
    (now i : ℕ) (s : DispatchStatus) (d : Db)
    → has_dispatch i d.dispatch ≡ true
    → is_status_type s ≡ true
    → update_dispatch_status now i s d ≡ ok (record d { dispatch = set_status i now s d.dispatch })
unfolding update_dispatch_status
update_tracked now i s d h t = rw (h, t) refl

update_unstorable :
    (now i : ℕ) (d : Db)
    → has_dispatch i d.dispatch ≡ true
    → update_dispatch_status now i unknown_rpc_error d ≡ err foreign_key
unfolding update_dispatch_status is_status_type
update_unstorable now i d h = rw h refl

-- For a transaction that has a dispatch row, `UpdateDispatchTxStatus` sets its status and no other
-- transaction's. It fails on `UNKNOWN_RPC_ERROR`, and on no other status: the text of that
-- constant is not the text that the migration gives the status.
pub update_dispatch_status_tracked :
    (now i : ℕ) (s : DispatchStatus) (d : Db)
    → has_dispatch i d.dispatch ≡ true
    → ((s ≡ unknown_rpc_error) × (update_dispatch_status now i s d ≡ err foreign_key))
      ⊎ ((s ≢ unknown_rpc_error)
          × ((d' : Db) × (update_dispatch_status now i s d ≡ ok d')
              × (status_of i d'.dispatch ≡ some s)
              × ((j : ℕ) → i ≢ j → status_of j d'.dispatch ≡ status_of j d.dispatch)))
update_dispatch_status_tracked now i s d h = elim (status_cases s) [
  | inl e ↦ inl (e, rw e (update_unstorable now i d h))
  | inr (t, ne) ↦ inr (
    ne,
    (
      record d { dispatch = set_status i now s d.dispatch },
      update_tracked now i s d h t,
      set_status_own i now s d.dispatch h,
      λ j other. set_status_other i j now s d.dispatch other,
    ),
  )
]
