-- ===== src/Store/Selects/ByHash.antt =====
-- The answer of get-otx-by-tx-hash while the status of a transaction changes, and for a
-- transaction that was just recorded.
use eth_custodial.Prelude.{
  ℕ, ◌≡◌, refl, ◌∙◌, String, false, List, [], ◌∷◌, ◌++◌, map, str_eq, arith, Bool-cases, inl, inr,
}
use mathlib.Core.List.{map-append}
use text.Mathlib.TextPositions.{eq_refl}
use eth_custodial.Store.Types.{DispatchStatus}
use eth_custodial.Store.Tables.{OtxRow, DispatchRow, Db, Otx}
use eth_custodial.Store.Results.{ok, err, no_rows}
use eth_custodial.Store.Queries.{has_otx, has_dispatch, set_status}
use eth_custodial.Store.Selects.{
  otx_of_row, join_dispatch, join_by_hash, scan_otx, get_otx_by_tx_hash,
}

abbrev ids : List Otx → List ℕ
ids = map (λ o. o.id)

-- The hash belongs to the transaction `i` and to no other, and the transaction has one dispatch row.
abbrev pub IsHashOf : (ℕ → String) → String → ℕ → Db → Type 0
IsHashOf text hash i d = ids (join_by_hash text hash d.otx d.dispatch) ≡ i ∷ []

module _ (i now : ℕ) (s : DispatchStatus) where
  join_dispatch-set_status :
      (o : OtxRow) (pk : String) (ds : List DispatchRow)
      → ids (join_dispatch o pk (set_status i now s ds)) ≡ ids (join_dispatch o pk ds)
  unfolding join_dispatch set_status
  join_dispatch-set_status o pk [] = refl
  join_dispatch-set_status o pk (r ∷ rs) = ground (arith, join_dispatch-set_status o pk rs)

  join_by_hash-set_status :
      (text : ℕ → String) (hash : String) (os : List OtxRow) (ds : List DispatchRow)
      → ids (join_by_hash text hash os (set_status i now s ds)) ≡ ids (join_by_hash text hash os ds)
  unfolding join_by_hash
  join_by_hash-set_status text hash [] ds = refl
  join_by_hash-set_status text hash (o ∷ os) ds = elim (Bool-cases (str_eq o.tx_hash hash)) [
    | inl t ↦
        rw t (simp (map-append, join_dispatch-set_status, join_by_hash-set_status text hash os ds))
    | inr f ↦ rw (f) (join_by_hash-set_status text hash os ds)
  ]

-- The only row is the answer.
pub get_otx_by_tx_hash_found :
    (text : ℕ → String) (hash : String) (i : ℕ) (d : Db)
    → IsHashOf text hash i d
    → (o : Otx) × (get_otx_by_tx_hash text hash d ≡ ok o) × (o.id ≡ i)
unfolding get_otx_by_tx_hash
get_otx_by_tx_hash_found text hash i d h = go (join_by_hash text hash d.otx d.dispatch) h
  where
    go : (l : List Otx) → ids l ≡ i ∷ [] → (o : Otx) × (scan_otx l ≡ ok o) × (o.id ≡ i)
    go [] h = cc
    go (x ∷ []) h = (x, refl, cc)
    go (x ∷ y ∷ r) h = cc

join_by_hash_none :
    (text : ℕ → String) (hash : String) (d : Db)
    → get_otx_by_tx_hash text hash d ≡ err no_rows
    → join_by_hash text hash d.otx d.dispatch ≡ []
unfolding get_otx_by_tx_hash
join_by_hash_none text hash d h = go (join_by_hash text hash d.otx d.dispatch) h
  where
    go : (l : List Otx) → scan_otx l ≡ err no_rows → l ≡ []
    go [] h = refl
    go (x ∷ []) h = cc
    go (x ∷ y ∷ r) h = cc

-- A dispatch row of a transaction that is not listed changes no answer.
join_by_hash-other :
    (text : ℕ → String) (hash : String) (r : DispatchRow) (os : List OtxRow) (ds : List DispatchRow)
    → has_otx r.otx_id os ≡ false
    → join_by_hash text hash os (r ∷ ds) ≡ join_by_hash text hash os ds
unfolding join_by_hash join_dispatch has_otx
join_by_hash-other text hash r [] ds h = refl
join_by_hash-other text hash r (o ∷ os) ds h = ground (arith, join_by_hash-other text hash r os ds)

join_dispatch-untracked :
    (o : OtxRow) (pk : String) (ds : List DispatchRow)
    → has_dispatch o.id ds ≡ false
    → join_dispatch o pk ds ≡ []
unfolding join_dispatch has_dispatch
join_dispatch-untracked o pk [] h = refl
join_dispatch-untracked o pk (r ∷ rs) h = ground (arith, join_dispatch-untracked o pk rs)

join_by_hash-first :
    (text : ℕ → String) (o : OtxRow) (os : List OtxRow) (ds : List DispatchRow)
    → join_by_hash text o.tx_hash (o ∷ os) ds
      ≡ join_dispatch o (text o.signer_account) ds ++ join_by_hash text o.tx_hash os ds
unfolding join_by_hash
join_by_hash-first text o os ds = rw (eq_refl o.tx_hash) refl

join_dispatch-once :
    (o : OtxRow) (pk : String) (r : DispatchRow) (ds : List DispatchRow)
    → r.otx_id ≡ o.id
    → has_dispatch o.id ds ≡ false
    → join_dispatch o pk (r ∷ ds) ≡ otx_of_row o pk r.status ∷ []
unfolding join_dispatch
join_dispatch-once o pk r ds k u = ground (arith, join_dispatch-untracked o pk ds)

-- A transaction that was just recorded, under a hash that no transaction had, is the only one with
-- its hash.
pub IsHashOf-recorded :
    (text : ℕ → String) (o : OtxRow) (r : DispatchRow) (d d' : Db)
    → d'.otx ≡ o ∷ d.otx
    → d'.dispatch ≡ r ∷ d.dispatch
    → r.otx_id ≡ o.id
    → has_otx o.id d.otx ≡ false
    → has_dispatch o.id d.dispatch ≡ false
    → get_otx_by_tx_hash text o.tx_hash d ≡ err no_rows
    → IsHashOf text o.tx_hash o.id d'
IsHashOf-recorded text o r d d' e f k h u q =
    let rest : join_by_hash text o.tx_hash d.otx (r ∷ d.dispatch) ≡ [] =
      join_by_hash-other text o.tx_hash r d.otx d.dispatch (rw k h)
      ∙ join_by_hash_none text o.tx_hash d q in
    rw
      (
        e,
        f,
        join_by_hash-first text o d.otx (r ∷ d.dispatch),
        join_dispatch-once o (text o.signer_account) r d.dispatch k u,
        rest,
      )
      refl

pub IsHashOf-set_status :
    (text : ℕ → String) (hash : String) (i j now : ℕ) (s : DispatchStatus) (d d' : Db)
    → d'.otx ≡ d.otx
    → d'.dispatch ≡ set_status j now s d.dispatch
    → IsHashOf text hash i d
    → IsHashOf text hash i d'
IsHashOf-set_status text hash i j now s d d' e f h =
    rw (e, f) (join_by_hash-set_status j now s text hash d.otx d.dispatch ∙ h)
