-- ===== src/Store/Sound.antt =====
-- The invariant of the tables of `otx`, `dispatch`, `noncestore` and of the job queue, and the
-- nonce that a worker holds between `AcquireNonce` and `InsertOTX`.
pub mod Nonces
pub mod Records
pub mod Updates
pub mod Resent
pub mod Rewrites
use eth_custodial.Prelude.{
  ℕ, zero, suc, ◌+◌, ◌<◌, ◌≤◌, ◌≡◌, refl, ◌≢◌, ◌⊎◌, String, Bool, true, false, ◌||◌, ◌&&◌, Option,
  none, some, List, [], ◌∷◌, ◌++◌, arith, ◌==◌, if◌then◌else◌, str_eq, All,
}
use eth_custodial.Jobs.{Job, JobArgs, dispatch, DispatchArgs}
use eth_custodial.Store.Tables.{NonceRow, OtxRow, DispatchRow, Db}
use eth_custodial.Store.Results.{Result, ok, err}
use eth_custodial.Store.Queries.{next_nonce_of, has_otx, key_id}

-- The nonce has been given out: it lies below the next one.
abbrev pub IsBelow : Option ℕ → ℕ → Type 0
IsBelow none n = ⊥
IsBelow (some next) n = n < next

abbrev pub IsGivenOut : List NonceRow → OtxRow → Type 0
IsGivenOut ns o = IsBelow (next_nonce_of o.signer_account ns) o.nonce

-- No transaction of the signer has the nonce.
abbrev pub IsFree : ℕ → ℕ → List OtxRow → Type 0
IsFree signer n [] = Unit
IsFree signer n (o ∷ os) = ((o.signer_account ≡ signer) → (o.nonce ≢ n)) × IsFree signer n os

-- No two transactions of one signer share a nonce.
abbrev pub NoncesDistinct : List OtxRow → Type 0
NoncesDistinct [] = Unit
NoncesDistinct (o ∷ os) = IsFree o.signer_account o.nonce os × NoncesDistinct os

abbrev pub IdsDistinct : List OtxRow → Type 0
IdsDistinct [] = Unit
IdsDistinct (o ∷ os) = (has_otx o.id os ≡ false) × IdsDistinct os

-- How many rows of `dispatch` refer to a transaction.
abbrev pub dispatch_count : ℕ → List DispatchRow → ℕ
dispatch_count i [] = 0
dispatch_count i (r ∷ rs) = (if r.otx_id == i then 1 else 0) + dispatch_count i rs

-- A transaction with this id and tracking id is recorded. Its content may be newer: the unlocker
-- signs a transaction again.
abbrev pub IsRecorded : DispatchArgs → List OtxRow → Type 0
IsRecorded a [] = ⊥
IsRecorded a (o ∷ os) = ((o.id ≡ a.otx_id) × (o.tracking_id ≡ a.tracking_id)) ⊎ IsRecorded a os

-- A dispatch job names a recorded transaction; other jobs name none.
abbrev pub IsBacked : List OtxRow → Job → Type 0
IsBacked os j = elim j.args [ dispatch a ↦ IsRecorded a os | _ ↦ Unit ]

pub record IsSound (d : Db) : Type 0 where
  pub given_out : All (IsGivenOut d.noncestore) d.otx
  pub nonces : NoncesDistinct d.otx
  pub ids : IdsDistinct d.otx
  pub tracked : All (λ o. dispatch_count o.id d.dispatch ≡ 1) d.otx
  pub referenced : All (λ r. has_otx r.otx_id d.otx ≡ true) d.dispatch
  pub backed : All (IsBacked d.otx) d.river_job

-- What the holder of the nonce `n` may rely on.
abbrev pub IsHeld : Option ℕ → ℕ → Db → Type 0
IsHeld none n d = Unit
IsHeld (some i) n d = IsBelow (next_nonce_of i d.noncestore) n × IsFree i n d.otx

abbrev pub IsHeldBy : Result (Option ℕ) → ℕ → Db → Type 0
IsHeldBy (err e) n d = Unit
IsHeldBy (ok k) n d = IsHeld k n d

pub record IsReserved (pk : String) (n : ℕ) (d : Db) : Type 0 where
  pub sound : IsSound d
  pub held : IsHeldBy (key_id pk d) n d
