-- ===== src/Store/Sound/Rewrites.antt =====
-- Statements on `otx` that write a transaction's text and hash alone: they leave who signed what
-- under which nonce, and so keep the invariant.
use eth_custodial.Prelude.{ℕ, ◌≡◌, refl, String, true, List, ◌∙◌, All-map}
use eth_custodial.Store.Tables.{OtxRow, Db}
use eth_custodial.Store.Queries.{has_otx}
use eth_custodial.Store.Unlocks.{set_otx_tx, set_otx_hash}
use eth_custodial.Store.Sound.{IsBacked, IsSound}
use eth_custodial.Store.Sound.Resent.{
  Resent, Resent-refl, Resent-trans, IsSameBook, set_tx-Resent, set_hash-Resent,
  NoncesDistinct-Resent, has_otx-Resent, IdsDistinct-Resent, IsGivenOut-Resent, tracked-Resent,
  Backs-Resent,
}

pub IsSameBook-refl : (d : Db) → IsSameBook d d
IsSameBook-refl d = record {
  keystore = refl;
  master_key = refl;
  noncestore = refl;
  river_job = refl;
  otx = Resent-refl d.otx;
}

-- New texts and hashes, and nothing else.
rewrite_otx : List OtxRow → Db → Db
rewrite_otx os d = record d { otx = os }

rewrite_otx-IsSound :
    (os : List OtxRow) (d : Db) → Resent d.otx os → IsSound d → IsSound (rewrite_otx os d)
unfolding rewrite_otx
rewrite_otx-IsSound os d r s = record {
  given_out = IsGivenOut-Resent d.noncestore d.otx os r s.given_out;
  nonces = NoncesDistinct-Resent d.otx os r s.nonces;
  ids = IdsDistinct-Resent d.otx os r s.ids;
  tracked = tracked-Resent d.dispatch d.otx os r s.tracked;
  referenced =
      All-map (λ x. has_otx x.otx_id d.otx ≡ true) (λ x. has_otx x.otx_id os ≡ true) d.dispatch
        (λ x h. has_otx-Resent x.otx_id d.otx os r ∙ h) s.referenced;
  backed =
      All-map (IsBacked d.otx) (IsBacked os) d.river_job (λ j. Backs-Resent d.otx os r j.args)
        s.backed;
}

rewrite_otx-IsSameBook :
    (c d : Db) (os : List OtxRow)
    → Resent d.otx os
    → IsSameBook c d
    → IsSameBook c (rewrite_otx os d)
unfolding rewrite_otx
rewrite_otx-IsSameBook c d os r h = record {
  keystore = h.keystore;
  master_key = h.master_key;
  noncestore = h.noncestore;
  river_job = h.river_job;
  otx = Resent-trans c.otx d.otx os h.otx r;
}

pub set_otx_tx-IsSound :
    (i : ℕ) (raw hash : String) (d : Db) → IsSound d → IsSound (set_otx_tx i raw hash d)
unfolding set_otx_tx
set_otx_tx-IsSound i raw hash d s =
    unfold rewrite_otx in rewrite_otx-IsSound _ d (set_tx-Resent i raw hash d.otx) s

pub set_otx_hash-IsSound :
    (i : ℕ) (hash : String) (d : Db) → IsSound d → IsSound (set_otx_hash i hash d)
unfolding set_otx_hash
set_otx_hash-IsSound i hash d s =
    unfold rewrite_otx in rewrite_otx-IsSound _ d (set_hash-Resent i hash d.otx) s

pub set_otx_tx-IsSameBook :
    (c : Db) (i : ℕ) (raw hash : String) (d : Db)
    → IsSameBook c d
    → IsSameBook c (set_otx_tx i raw hash d)
unfolding set_otx_tx
set_otx_tx-IsSameBook c i raw hash d s =
    unfold rewrite_otx in rewrite_otx-IsSameBook c d _ (set_tx-Resent i raw hash d.otx) s

pub set_otx_hash-IsSameBook :
    (c : Db) (i : ℕ) (hash : String) (d : Db)
    → IsSameBook c d
    → IsSameBook c (set_otx_hash i hash d)
unfolding set_otx_hash
set_otx_hash-IsSameBook c i hash d s =
    unfold rewrite_otx in rewrite_otx-IsSameBook c d _ (set_hash-Resent i hash d.otx) s
