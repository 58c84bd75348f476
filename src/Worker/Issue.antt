-- ===== src/Worker/Issue.antt =====
-- The contract of the workers that sign one transaction for a custodial account
-- (internal/worker/token_transfer.go, token_sweep.go, generic_sign.go), stated on the tables: what
-- the job leaves in the committed database when it completes.
pub mod Jobs
pub mod Filed
pub mod Calls
pub mod Queue
pub mod Signers
pub mod Pools
pub mod Completion
use eth_custodial.Prelude.{ℕ, ◌+◌, ◌≡◌, refl, String, some, List, ◌∷◌, ◌++◌}
use eth_custodial.Jobs.{Bytes, Job}
use eth_custodial.Store.Types.{OtxType, pending}
use eth_custodial.Store.Tables.{Db, OtxRow, DispatchRow, NewOtx}
use eth_custodial.Store.Results.{ok, or_error-ok}
use eth_custodial.Store.Queries
use eth_custodial.Store.Queries.{key_id, next_nonce_of, set_next_nonce}
use eth_custodial.World.{M}
use eth_custodial.World.Hoare.{Hoare-lift, Hoare-pure, ◌⨾◌, weaken}
use eth_custodial.Runtime.{Env}
use eth_custodial.Pg
use eth_custodial.Pg.Rules.{
  Still-external, Still-next_otx_id, Still-next_dispatch_id, Hoare-write, Hoare-write_returning,
  Hoare-begin,
}
use eth_custodial.Pg.Safe.{Triple, steady}
use eth_custodial.Worker.Signing.{Recorded, record_tx}

-- From `c0` to `c`, the signer `pk` was given its next nonce, one transaction of the given
-- tracking id and type was recorded under that nonce with a pending dispatch row, its text as `call`
-- describes it, and jobs were queued; no key and no other row changed.
pub record OneIssued (pk tracking_id : String) (t : OtxType) (call : ℕ → String → Type 0)
    (jobs : Recorded → List Job) (c0 c : Db) : Type 0 where
  pub signer : ℕ
  pub row : OtxRow
  pub tracked : DispatchRow
  pub known : key_id pk c0 ≡ ok (some signer)
  pub current : next_nonce_of signer c0.noncestore ≡ some row.nonce
  pub row_signer : row.signer_account ≡ signer
  pub row_tracking_id : row.tracking_id ≡ tracking_id
  pub row_type : row.otx_type ≡ t
  pub described : call row.nonce row.raw_tx
  pub tracked_otx : tracked.otx_id ≡ row.id
  pub tracked_status : tracked.status ≡ pending
  pub after : c ≡ record {
    keystore = c0.keystore;
    master_key = c0.master_key;
    noncestore = set_next_nonce signer (row.nonce + 1) c0.noncestore;
    otx = row ∷ c0.otx;
    dispatch = tracked ∷ c0.dispatch;
    river_job = c0.river_job ++ jobs (record { otx_id = row.id; raw_tx = row.raw_tx });
  }

-- The transaction's view after each of the steps.
record AfterOtx (c0 : Db) (o : NewOtx) (id : ℕ) (d : Db) : Type 0 where
  before : Db
  now : ℕ
  acquired : Queries.acquire_nonce o.signer_account c0 ≡ ok (o.nonce, before)
  inserted : Queries.insert_otx id now o before ≡ ok d

record AfterDispatch (c0 : Db) (o : NewOtx) (id : ℕ) (d : Db) : Type 0 where
  before : Db
  dispatch_id : ℕ
  now : ℕ
  otx : AfterOtx c0 o id before
  inserted : Queries.insert_dispatch dispatch_id now id pending before ≡ ok d

pub record AfterRecord (c0 : Db) (pk tracking_id : String) (t : OtxType) (r : Recorded) (d : Db)
    : Type 0 where
  new : NewOtx
  dispatch : AfterDispatch c0 new r.otx_id d
  same_signer : new.signer_account ≡ pk
  same_id : new.tracking_id ≡ tracking_id
  same_type : new.otx_type ≡ t
  same_raw : new.raw_tx ≡ r.raw_tx

-- The hex text of a signed transaction.
pub record IsTextOf (env : Env) (tx : env.Tx) (text : String) : Type 0 where
  pub raw : Bytes
  pub marshalled : env.marshal_binary tx ≡ some raw
  pub encoded : text ≡ env.hex_encode raw

module _ (env : Env) (c0 : Db) where
  abbrev pub Step : {A : Type 0} → (Db → Type 0) → M A → (A → Db → Type 0) → Type 0
  Step R m S = Triple (λ c. c ≡ c0) R m S

  pub Step-begin : Step (λ _. Unit) (Pg.begin env) (λ _ d. d ≡ c0)
  Step-begin = Hoare-begin env (λ c w p. p.0) (λ c w p. (p.0, p.0))

-- From the view `b`, with the committed database `c0`.
module _ (env : Env) (c0 b : Db) where
  pub Step-acquire_nonce :
      (pk : String)
      → Step env c0
          (λ d. d ≡ b)
          (Pg.acquire_nonce env pk)
          (λ n d. Queries.acquire_nonce pk b ≡ ok (n, d))
  unfolding Pg.acquire_nonce
  Step-acquire_nonce pk = steady (Still-external env) ⨾ λ _.
      Hoare-write_returning (Queries.acquire_nonce pk) (λ c w p. p.0)
        λ n c d d' p h. (p.0, rw (← p.1) h)

  Step-insert_otx :
      (o : NewOtx)
      → Step env c0
          (λ d. Queries.acquire_nonce o.signer_account b ≡ ok (o.nonce, d))
          (Pg.insert_otx env o)
          (λ id. AfterOtx b o id)
  unfolding Pg.insert_otx
  Step-insert_otx o = steady (Still-external env) ⨾ λ _. steady Still-next_otx_id ⨾ λ id.
      Hoare-write (λ w d. Queries.insert_otx id w.began_at o d) (λ c w p. p.0)
        (λ w c d d' p h.
          (p.0, record { before = d; now = w.began_at; acquired = p.1; inserted = h }))
      ⨾ λ _. Hoare-pure id (λ c w p. p)

  Step-insert_dispatch_tx :
      (o : NewOtx) (id : ℕ)
      → Step env c0
          (AfterOtx b o id)
          (Pg.insert_dispatch_tx env id pending)
          (λ _. AfterDispatch b o id)
  unfolding Pg.insert_dispatch_tx
  Step-insert_dispatch_tx o id = steady (Still-external env) ⨾ λ _.
      steady Still-next_dispatch_id ⨾ λ did.
      Hoare-write (λ w d. Queries.insert_dispatch did w.began_at id pending d) (λ c w p. p.0)
        λ w c d d' p h.
          (p.0, record { before = d; dispatch_id = did; now = w.began_at; otx = p.1; inserted = h })

  -- The record is of the given transaction, under the given nonce.
  pub Step-record_call :
      (tracking_id : String) (t : OtxType) (pk : String) (n : ℕ) (tx : env.Tx)
      → Step env c0
          (λ d. Queries.acquire_nonce pk b ≡ ok (n, d))
          (record_tx env tracking_id t pk n tx)
          (λ r d.
            (a : AfterRecord b pk tracking_id t r d) × (a.new.nonce ≡ n) × IsTextOf env tx r.raw_tx)
  unfolding record_tx
  Step-record_call tracking_id t pk n tx =
      Hoare-lift _ (λ c w p. p.0)
        λ raw e. Step-insert_otx _ ⨾ λ id. Step-insert_dispatch_tx _ id ⨾ λ _.
          Hoare-pure _ (λ c w p. (
            p.0,
            (
              record {
                new = _;
                dispatch = p.1;
                same_signer = refl;
                same_id = refl;
                same_type = refl;
                same_raw = refl;
              },
              refl,
              record { raw = raw; marshalled = or_error-ok _ _ _ e; encoded = refl },
            ),
          ))

  pub Step-record_tx :
      (tracking_id : String) (t : OtxType) (pk : String) (n : ℕ) (tx : env.Tx)
      → Step env c0
          (λ d. Queries.acquire_nonce pk b ≡ ok (n, d))
          (record_tx env tracking_id t pk n tx)
          (λ r. AfterRecord b pk tracking_id t r)
  Step-record_tx tracking_id t pk n tx =
      weaken (λ c w p. p) (λ r c w p. (p.0, p.1.0)) (Step-record_call tracking_id t pk n tx)
