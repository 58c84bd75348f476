-- ===== src/Store/Sound/Updates.antt =====
-- The other statements keep the invariant: new jobs, a new status, a new key.
use eth_custodial.Prelude.{
  ℕ, ◌≡◌, refl, true, none, List, [], ◌∷◌, arith, ◌∙◌, All, All-map, All-append,
}
use eth_custodial.Jobs.{Job, Key}
use eth_custodial.Store.Types.{DispatchStatus}
use eth_custodial.Store.Tables.{NonceRow, OtxRow, DispatchRow, Db}
use eth_custodial.Store.Results.{ok}
use eth_custodial.Store.Queries.{
  next_nonce_of, has_otx, set_status, add_jobs, update_dispatch_status, insert_keypair,
}
use eth_custodial.Store.Queries.Inversion.{update_dispatch_status_after, insert_keypair_after}
use eth_custodial.Store.Sound.{IsGivenOut, IsSound, IsBacked, dispatch_count}

pub add_jobs-IsSound :
    (js : List Job) (d : Db) → IsSound d → All (IsBacked d.otx) js → IsSound (add_jobs js d)
add_jobs-IsSound js d s h = record {
  given_out = s.given_out;
  nonces = s.nonces;
  ids = s.ids;
  tracked = s.tracked;
  referenced = s.referenced;
  backed = All-append (IsBacked d.otx) d.river_job js s.backed h;
}

dispatch_count-set_status :
    (i j now : ℕ) (s : DispatchStatus) (ds : List DispatchRow)
    → dispatch_count i (set_status j now s ds) ≡ dispatch_count i ds
unfolding set_status
dispatch_count-set_status i j now s [] = refl
dispatch_count-set_status i j now s (r ∷ ds) =
    ground (arith, dispatch_count-set_status i j now s ds)

referenced-set_status :
    (j now : ℕ) (s : DispatchStatus) (os : List OtxRow) (ds : List DispatchRow)
    → All (λ r. has_otx r.otx_id os ≡ true) ds
    → All (λ r. has_otx r.otx_id os ≡ true) (set_status j now s ds)
unfolding set_status
referenced-set_status j now s os [] h = tt
referenced-set_status j now s os (r ∷ ds) h =
    (ground arith, referenced-set_status j now s os ds h.1)

set_status-IsSound :
    (i now : ℕ) (s : DispatchStatus) (d : Db)
    → IsSound d
    → IsSound (record d { dispatch = set_status i now s d.dispatch })
set_status-IsSound i now s d h = record {
  given_out = h.given_out;
  nonces = h.nonces;
  ids = h.ids;
  tracked =
      All-map (λ o. dispatch_count o.id d.dispatch ≡ 1)
        (λ o. dispatch_count o.id (set_status i now s d.dispatch) ≡ 1) d.otx
        (λ o e. dispatch_count-set_status o.id i now s d.dispatch ∙ e) h.tracked;
  referenced = referenced-set_status i now s d.otx d.dispatch h.referenced;
  backed = h.backed;
}

pub update_dispatch_status-IsSound :
    (now i : ℕ) (s : DispatchStatus) (d d' : Db)
    → IsSound d
    → update_dispatch_status now i s d ≡ ok d'
    → IsSound d'
update_dispatch_status-IsSound now i s d d' h e =
    rw (update_dispatch_status_after now i s d d' e) (set_status-IsSound i now s d h)

with_key-IsGivenOut :
    (id : ℕ) (r : NonceRow) (ns : List NonceRow) (o : OtxRow)
    → r.keystore_id ≡ id
    → next_nonce_of id ns ≡ none
    → IsGivenOut ns o
    → IsGivenOut (r ∷ ns) o
unfolding next_nonce_of
with_key-IsGivenOut id r ns o e n h = ground arith

pub insert_keypair-IsSound :
    (id : ℕ) (key : Key) (d d' : Db) → IsSound d → insert_keypair id key d ≡ ok d' → IsSound d'
insert_keypair-IsSound id key d d' h e =
    let (new, after) = insert_keypair_after id key d d' e in
    let row : NonceRow = record { keystore_id = id; next_nonce = 0 } in
    rw after (record {
      given_out =
          All-map (IsGivenOut d.noncestore) (IsGivenOut (row ∷ d.noncestore)) d.otx
            (λ o. with_key-IsGivenOut id row d.noncestore o refl new) h.given_out;
      nonces = h.nonces;
      ids = h.ids;
      tracked = h.tracked;
      referenced = h.referenced;
      backed = h.backed;
    })
