-- ===== src/Store/Sound/Records.antt =====
-- `InsertOTX` with a nonce that is held, followed by `InsertDispatchTx`, keeps the invariant.
use eth_custodial.Prelude.{
  ℕ, ◌≡◌, refl, ◌≢◌, true, false, some, List, [], ◌∷◌, inl, arith, All, All-map,
}
use eth_custodial.Jobs.{Job}
use eth_custodial.Store.Types.{DispatchStatus}
use eth_custodial.Store.Tables.{OtxRow, DispatchRow, Db, NewOtx}
use eth_custodial.Store.Results.{ok}
use eth_custodial.Store.Queries.{has_otx, key_id, insert_otx, insert_dispatch, otx_row}
use eth_custodial.Store.Queries.Inversion.{insert_otx-Inserted, insert_dispatch-Dispatched}
use eth_custodial.Store.Sound.{IsSound, IsReserved, IsBacked, IsRecorded, dispatch_count}

has_otx-cons :
    (i : ℕ) (o : OtxRow) (os : List OtxRow) → has_otx i os ≡ true → has_otx i (o ∷ os) ≡ true
unfolding has_otx
has_otx-cons i o os h = ground arith

has_otx_self : (o : OtxRow) (os : List OtxRow) → has_otx o.id (o ∷ os) ≡ true
unfolding has_otx
has_otx_self o os = ground arith

has_otx_ne :
    (o : OtxRow) (i : ℕ) (os : List OtxRow)
    → has_otx i (o ∷ os) ≡ false
    → (o.id ≢ i) × (has_otx i os ≡ false)
unfolding has_otx
has_otx_ne o i os h = ground arith

referenced-cons :
    (o : OtxRow) (os : List OtxRow) (ds : List DispatchRow)
    → All (λ r. has_otx r.otx_id os ≡ true) ds
    → All (λ r. has_otx r.otx_id (o ∷ os) ≡ true) ds
referenced-cons o os ds =
    All-map (λ r. has_otx r.otx_id os ≡ true) (λ r. has_otx r.otx_id (o ∷ os) ≡ true) ds
      (λ r. has_otx-cons r.otx_id o os)

IsBacked-cons : (o : OtxRow) (os : List OtxRow) (j : Job) → IsBacked os j → IsBacked (o ∷ os) j
IsBacked-cons o os j h = ground arith

-- No row refers to a transaction that is not there.
dispatch_count-zero :
    (i : ℕ) (os : List OtxRow) (ds : List DispatchRow)
    → has_otx i os ≡ false
    → All (λ r. has_otx r.otx_id os ≡ true) ds
    → dispatch_count i ds ≡ 0
dispatch_count-zero i os [] h a = refl
dispatch_count-zero i os (r ∷ ds) h a = ground (arith, dispatch_count-zero i os ds h a.1)

-- A row for a new transaction leaves the count of the others.
tracked-cons :
    (r : DispatchRow) (i : ℕ) (os : List OtxRow) (ds : List DispatchRow)
    → r.otx_id ≡ i
    → has_otx i os ≡ false
    → All (λ o. dispatch_count o.id ds ≡ 1) os
    → All (λ o. dispatch_count o.id (r ∷ ds) ≡ 1) os
tracked-cons r i [] ds e h a = tt
tracked-cons r i (o ∷ os) ds e h a =
    let (ne, rest) = has_otx_ne o i os h in (ground arith, tracked-cons r i os ds e rest a.1)

module _ (id now did now' : ℕ) (s : DispatchStatus) (o : NewOtx) where
  -- The two rows of a new transaction.
  pub with_tx : ℕ → Db → Db
  with_tx signer d = record d {
    otx = otx_row id now signer o ∷ d.otx;
    dispatch = record { id = did; otx_id = id; status = s; updated_at = now' } ∷ d.dispatch;
  }

  pub with_tx-IsSound :
      (signer : ℕ) (d : Db)
      → key_id o.signer_account d ≡ ok (some signer)
      → has_otx id d.otx ≡ false
      → IsReserved o.signer_account o.nonce d
      → IsSound (with_tx signer d)
  unfolding with_tx
  with_tx-IsSound signer d known fresh r =
      let row = otx_row id now signer o in
      let sent : DispatchRow = record { id = did; otx_id = id; status = s; updated_at = now' } in
      let held = (rw known at r.held) in
      record {
        given_out = (held.0, r.sound.given_out);
        nonces = (held.1, r.sound.nonces);
        ids = (fresh, r.sound.ids);
        tracked = (
          ground (arith, dispatch_count-zero id d.otx d.dispatch fresh r.sound.referenced),
          tracked-cons sent id d.otx d.dispatch refl fresh r.sound.tracked,
        );
        referenced =
            (has_otx_self row d.otx, referenced-cons row d.otx d.dispatch r.sound.referenced);
        backed =
            All-map (IsBacked d.otx) (IsBacked (row ∷ d.otx)) d.river_job (IsBacked-cons row d.otx)
              r.sound.backed;
      }

  pub insert-IsSound :
      (d d1 d2 : Db)
      → IsReserved o.signer_account o.nonce d
      → insert_otx id now o d ≡ ok d1
      → insert_dispatch did now' id s d1 ≡ ok d2
      → IsSound d2
  insert-IsSound d d1 d2 r h1 h2 =
      let i = insert_otx-Inserted id now o d d1 h1 in
      let p = insert_dispatch-Dispatched did now' id s d1 d2 h2 in
      rw (p.after, i.after) (unfold with_tx in with_tx-IsSound i.signer d i.known i.fresh r)

  pub insert-IsRecorded :
      (d d1 d2 : Db)
      → insert_otx id now o d ≡ ok d1
      → insert_dispatch did now' id s d1 ≡ ok d2
      → IsRecorded (record { tracking_id = o.tracking_id; otx_id = id; raw_tx = o.raw_tx }) d2.otx
  insert-IsRecorded d d1 d2 h1 h2 =
      let i = insert_otx-Inserted id now o d d1 h1 in
      let p = insert_dispatch-Dispatched did now' id s d1 d2 h2 in
      rw (p.after, i.after) (inl (refl, refl))
