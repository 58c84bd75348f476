-- ===== src/Worker/Issue/Filed.antt =====
-- One transaction recorded in the view of an open transaction, under the signer's next nonce.
use eth_custodial.Prelude.{ℕ, ◌+◌, ◌≡◌, refl, ◌∙◌, ap, String, some, ◌∷◌, sym}
use eth_custodial.Store.Types.{OtxType, pending}
use eth_custodial.Store.Tables.{Db, OtxRow, DispatchRow}
use eth_custodial.Store.Results.{ok}
use eth_custodial.Store.Queries
use eth_custodial.Store.Queries.{key_id, next_nonce_of, set_next_nonce}
use eth_custodial.Store.Queries.Inversion.{
  acquire_nonce-Acquired, insert_otx-Inserted, insert_dispatch-Dispatched,
}
use eth_custodial.Worker.Signing.{Recorded}
use eth_custodial.Worker.Issue.{AfterRecord}

-- The row of a transaction and its dispatch row, by signer, tracking id, type and nonce.
pub record IsFiled (signer : ℕ) (tracking_id : String) (t : OtxType) (nonce : ℕ) (o : OtxRow)
    (r : DispatchRow) : Type 0 where
  pub row_signer : o.signer_account ≡ signer
  pub row_tracking_id : o.tracking_id ≡ tracking_id
  pub row_type : o.otx_type ≡ t
  pub row_nonce : o.nonce ≡ nonce
  pub tracked_otx : r.otx_id ≡ o.id
  pub tracked_status : r.status ≡ pending

-- The tables with a new row of `otx`, one of `dispatch`, and the nonce used up.
abbrev pub with_filed : ℕ → OtxRow → DispatchRow → Db → Db
with_filed signer o r d = record d {
  noncestore = set_next_nonce signer (o.nonce + 1) d.noncestore;
  otx = o ∷ d.otx;
  dispatch = r ∷ d.dispatch;
}

abbrev pub recorded_of : OtxRow → Recorded
recorded_of o = record { otx_id = o.id; raw_tx = o.raw_tx }

pub record Filed (b : Db) (pk tracking_id : String) (t : OtxType) (r : Recorded) (d : Db)
    : Type 0 where
  pub signer : ℕ
  pub row : OtxRow
  pub tracked : DispatchRow
  pub known : key_id pk b ≡ ok (some signer)
  pub current : next_nonce_of signer b.noncestore ≡ some row.nonce
  pub filed : IsFiled signer tracking_id t row.nonce row tracked
  pub same : recorded_of row ≡ r
  pub after : d ≡ with_filed signer row tracked b

key_id_after :
    (pk : String) (i n : ℕ) (d : Db)
    → key_id pk (record d { noncestore = set_next_nonce i n d.noncestore }) ≡ key_id pk d
unfolding key_id
key_id_after pk i n d = refl

pub AfterRecord-Filed :
    (b : Db) (pk tracking_id : String) (t : OtxType) (x : Recorded) (d : Db)
    → (r : AfterRecord b pk tracking_id t x d)
    → (f : Filed b pk tracking_id t x d) × (f.row.nonce ≡ r.new.nonce)
AfterRecord-Filed b pk tracking_id t x d r =
    let o = r.new in
    let a =
      acquire_nonce-Acquired o.signer_account o.nonce b r.dispatch.otx.before
        r.dispatch.otx.acquired in
    let i =
      insert_otx-Inserted x.otx_id r.dispatch.otx.now o r.dispatch.otx.before r.dispatch.before
        r.dispatch.otx.inserted in
    let p =
      insert_dispatch-Dispatched r.dispatch.dispatch_id r.dispatch.now x.otx_id pending
        r.dispatch.before d r.dispatch.inserted in
    let row = Queries.otx_row x.otx_id r.dispatch.otx.now i.signer o in
    let tracked : DispatchRow = record {
      id = r.dispatch.dispatch_id;
      otx_id = x.otx_id;
      status = pending;
      updated_at = r.dispatch.now;
    } in
    let same_signer : ok (some i.signer) ≡ ok (some a.signer) =
      sym i.known
      ∙ ap (key_id o.signer_account) a.after
      ∙ key_id_after o.signer_account a.signer (o.nonce + 1) b
      ∙ a.known in
    (
      record {
        signer = a.signer;
        row = row;
        tracked = tracked;
        known = rw (← r.same_signer) a.known;
        current = a.current;
        filed = record {
          row_signer = cc;
          row_tracking_id = r.same_id;
          row_type = r.same_type;
          row_nonce = refl;
          tracked_otx = refl;
          tracked_status = refl;
        };
        same = ap (λ raw. record { otx_id = x.otx_id; raw_tx = raw }) r.same_raw;
        after =
            p.after
            ∙ ap {A = Db} (λ d. record d { dispatch = tracked ∷ d.dispatch })
                (i.after ∙ ap {A = Db} (λ d. record d { otx = row ∷ d.otx }) a.after);
      },
      refl,
    )
