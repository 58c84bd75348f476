-- ===== src/Store/Tables.antt =====
-- The tables of migrations/001_init_custodial.sql and 002_dispatch.sql, and River's job table,
-- which lies in the same database. A table is a list of rows, the newest first; times are in
-- seconds. The unused columns `created_at` of the keystore and of the noncestore are left out.
use eth_custodial.Prelude.{ℕ, String, Bool, List}
use eth_custodial.Store.Types.{DispatchStatus, OtxType}
use eth_custodial.Jobs.{Job}

pub record KeyRow : Type 0 where
  pub id : ℕ
  pub public_key : String
  pub private_key : String
  pub active : Bool

pub record NonceRow : Type 0 where
  pub keystore_id : ℕ
  pub next_nonce : ℕ

pub record OtxRow : Type 0 where
  pub id : ℕ
  pub tracking_id : String
  pub otx_type : OtxType
  pub signer_account : ℕ
  pub raw_tx : String
  pub tx_hash : String
  pub nonce : ℕ
  pub replaced : Bool
  pub created_at : ℕ
  pub updated_at : ℕ

pub record DispatchRow : Type 0 where
  pub id : ℕ
  pub otx_id : ℕ
  pub status : DispatchStatus
  pub updated_at : ℕ

pub record Db : Type 0 where
  pub keystore : List KeyRow
  pub master_key : List ℕ
  pub noncestore : List NonceRow
  pub otx : List OtxRow
  pub dispatch : List DispatchRow
  pub river_job : List Job

-- internal/store/otx.go `OTX`, as the SELECT queries fill it.
pub record Otx : Type 0 where
  pub id : ℕ
  pub tracking_id : String
  pub otx_type : OtxType
  pub signer_account : String
  pub raw_tx : String
  pub tx_hash : String
  pub nonce : ℕ
  pub replaced : Bool
  pub created_at : ℕ
  pub updated_at : ℕ
  pub dispatch_status : DispatchStatus

-- The fields of an `OTX` that `InsertOTX` reads.
pub record NewOtx : Type 0 where
  pub tracking_id : String
  pub otx_type : OtxType
  pub signer_account : String
  pub raw_tx : String
  pub tx_hash : String
  pub nonce : ℕ
