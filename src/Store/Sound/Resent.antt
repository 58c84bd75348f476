-- ===== src/Store/Sound/Resent.antt =====
-- The transactions of a table, each perhaps signed again: what the invariant asks of them stays.
use eth_custodial.Prelude.{
  ℕ, ◌≡◌, refl, inl, inr, String, Bool, true, false, List, [], ◌∷◌, ◌∙◌, All, ◌==◌, if◌then◌else◌,
}
use eth_custodial.Jobs.{JobArgs, DispatchArgs, dispatch}
use eth_custodial.Store.Tables.{NonceRow, OtxRow, DispatchRow, Db}
use eth_custodial.Store.Queries.{has_otx}
use eth_custodial.Store.Unlocks.{set_tx, set_hash}
use eth_custodial.Store.Sound.{
  IsGivenOut, IsFree, NoncesDistinct, IdsDistinct, IsRecorded, dispatch_count,
}

-- The same transaction of the same signer, perhaps signed again.
pub record IsSameTx (o p : OtxRow) : Type 0 where
  pub id : p.id ≡ o.id
  pub tracking_id : p.tracking_id ≡ o.tracking_id
  pub otx_type : p.otx_type ≡ o.otx_type
  pub signer_account : p.signer_account ≡ o.signer_account
  pub nonce : p.nonce ≡ o.nonce

abbrev pub Resent : List OtxRow → List OtxRow → Type 0
Resent [] [] = Unit
Resent [] (p ∷ ps) = ⊥
Resent (o ∷ os) [] = ⊥
Resent (o ∷ os) (p ∷ ps) = IsSameTx o p × Resent os ps

pub IsSameTx-refl : (o : OtxRow) → IsSameTx o o
IsSameTx-refl o = record {
  id = refl;
  tracking_id = refl;
  otx_type = refl;
  signer_account = refl;
  nonce = refl;
}

pub Resent-refl : (os : List OtxRow) → Resent os os
Resent-refl [] = tt
Resent-refl (o ∷ os) = (IsSameTx-refl o, Resent-refl os)

IsSameTx-trans : (o p q : OtxRow) → IsSameTx o p → IsSameTx p q → IsSameTx o q
IsSameTx-trans o p q h k = record {
  id = k.id ∙ h.id;
  tracking_id = k.tracking_id ∙ h.tracking_id;
  otx_type = k.otx_type ∙ h.otx_type;
  signer_account = k.signer_account ∙ h.signer_account;
  nonce = k.nonce ∙ h.nonce;
}

pub Resent-trans : (os ps qs : List OtxRow) → Resent os ps → Resent ps qs → Resent os qs
Resent-trans [] [] [] h k = tt
Resent-trans [] [] (q ∷ qs) h k = k
Resent-trans [] (p ∷ ps) qs e k = elim e [ ]
Resent-trans (o ∷ os) [] qs e k = elim e [ ]
Resent-trans (o ∷ os) (p ∷ ps) [] h k = k
Resent-trans (o ∷ os) (p ∷ ps) (q ∷ qs) h k =
    (IsSameTx-trans o p q h.0 k.0, Resent-trans os ps qs h.1 k.1)

same_if : (b : Bool) (o p : OtxRow) → IsSameTx o p → IsSameTx o (if b then p else o)
same_if true o p h = h
same_if false o p h = IsSameTx-refl o

pub set_tx-Resent :
    (i : ℕ) (raw hash : String) (os : List OtxRow) → Resent os (set_tx i raw hash os)
unfolding set_tx
set_tx-Resent i raw hash [] = tt
set_tx-Resent i raw hash (o ∷ os) = (
  same_if (o.id == i) o (record o { raw_tx = raw; tx_hash = hash })
      (record {
        id = refl;
        tracking_id = refl;
        otx_type = refl;
        signer_account = refl;
        nonce = refl;
      }),
  set_tx-Resent i raw hash os,
)

pub set_hash-Resent : (i : ℕ) (hash : String) (os : List OtxRow) → Resent os (set_hash i hash os)
unfolding set_hash
set_hash-Resent i hash [] = tt
set_hash-Resent i hash (o ∷ os) = (
  same_if (o.id == i) o (record o { tx_hash = hash })
      (record {
        id = refl;
        tracking_id = refl;
        otx_type = refl;
        signer_account = refl;
        nonce = refl;
      }),
  set_hash-Resent i hash os,
)

-- The same keys, nonces and jobs, and the same transactions, each perhaps signed again.
pub record IsSameBook (c d : Db) : Type 0 where
  pub keystore : d.keystore ≡ c.keystore
  pub master_key : d.master_key ≡ c.master_key
  pub noncestore : d.noncestore ≡ c.noncestore
  pub river_job : d.river_job ≡ c.river_job
  pub otx : Resent c.otx d.otx

pub IsFree-Resent : (i n : ℕ) (os ps : List OtxRow) → Resent os ps → IsFree i n os → IsFree i n ps
IsFree-Resent i n [] [] r h = tt
IsFree-Resent i n [] (p ∷ ps) e h = elim e [ ]
IsFree-Resent i n (o ∷ os) [] e h = elim e [ ]
IsFree-Resent i n (o ∷ os) (p ∷ ps) r h =
    (rw (r.0.signer_account, r.0.nonce) (h.0), IsFree-Resent i n os ps r.1 h.1)

pub NoncesDistinct-Resent :
    (os ps : List OtxRow) → Resent os ps → NoncesDistinct os → NoncesDistinct ps
NoncesDistinct-Resent [] [] r h = tt
NoncesDistinct-Resent [] (p ∷ ps) e h = elim e [ ]
NoncesDistinct-Resent (o ∷ os) [] e h = elim e [ ]
NoncesDistinct-Resent (o ∷ os) (p ∷ ps) r h = (
  rw (r.0.signer_account, r.0.nonce) (IsFree-Resent o.signer_account o.nonce os ps r.1 h.0),
  NoncesDistinct-Resent os ps r.1 h.1,
)

pub has_otx-Resent : (i : ℕ) (os ps : List OtxRow) → Resent os ps → has_otx i ps ≡ has_otx i os
unfolding has_otx
has_otx-Resent i [] [] r = refl
has_otx-Resent i [] (p ∷ ps) e = elim e [ ]
has_otx-Resent i (o ∷ os) [] e = elim e [ ]
has_otx-Resent i (o ∷ os) (p ∷ ps) r = rw (r.0.id, has_otx-Resent i os ps r.1) refl

pub IdsDistinct-Resent : (os ps : List OtxRow) → Resent os ps → IdsDistinct os → IdsDistinct ps
IdsDistinct-Resent [] [] r h = tt
IdsDistinct-Resent [] (p ∷ ps) e h = elim e [ ]
IdsDistinct-Resent (o ∷ os) [] e h = elim e [ ]
IdsDistinct-Resent (o ∷ os) (p ∷ ps) r h =
    (rw (r.0.id, has_otx-Resent o.id os ps r.1) h.0, IdsDistinct-Resent os ps r.1 h.1)

pub IsGivenOut-Resent :
    (ns : List NonceRow) (os ps : List OtxRow)
    → Resent os ps
    → All (IsGivenOut ns) os
    → All (IsGivenOut ns) ps
IsGivenOut-Resent ns [] [] r h = tt
IsGivenOut-Resent ns [] (p ∷ ps) e h = elim e [ ]
IsGivenOut-Resent ns (o ∷ os) [] e h = elim e [ ]
IsGivenOut-Resent ns (o ∷ os) (p ∷ ps) r h =
    (rw (r.0.signer_account, r.0.nonce) h.0, IsGivenOut-Resent ns os ps r.1 h.1)

pub tracked-Resent :
    (ds : List DispatchRow) (os ps : List OtxRow)
    → Resent os ps
    → All (λ o. dispatch_count o.id ds ≡ 1) os
    → All (λ o. dispatch_count o.id ds ≡ 1) ps
tracked-Resent ds [] [] r h = tt
tracked-Resent ds [] (p ∷ ps) e h = elim e [ ]
tracked-Resent ds (o ∷ os) [] e h = elim e [ ]
tracked-Resent ds (o ∷ os) (p ∷ ps) r h = (rw r.0.id h.0, tracked-Resent ds os ps r.1 h.1)

pub IsRecorded-Resent :
    (a : DispatchArgs) (os ps : List OtxRow) → Resent os ps → IsRecorded a os → IsRecorded a ps
IsRecorded-Resent a [] ps r e = elim e [ ]
IsRecorded-Resent a (o ∷ os) [] e h = elim e [ ]
IsRecorded-Resent a (o ∷ os) (p ∷ ps) r (inl h) = inl (r.0.id ∙ h.0, r.0.tracking_id ∙ h.1)
IsRecorded-Resent a (o ∷ os) (p ∷ ps) r (inr h) = inr (IsRecorded-Resent a os ps r.1 h)

abbrev Backs : List OtxRow → JobArgs → Type 0
Backs os args = elim args [ dispatch a ↦ IsRecorded a os | _ ↦ Unit ]

pub Backs-Resent :
    (os ps : List OtxRow) → Resent os ps → (args : JobArgs) → Backs os args → Backs ps args
Backs-Resent os ps r (dispatch a) h = IsRecorded-Resent a os ps r h
Backs-Resent os ps r _ h = tt
