-- ===== src/Pg/Safe.antt =====
-- The statements that change the transaction's view keep the invariant: the triples from which
-- the safety of a worker is put together.
use eth_custodial.Prelude.{ℕ, ◌≡◌, String, List, [], ◌∷◌, All, All-map, inr}
use eth_custodial.Jobs.{Job, Key, DispatchArgs}
use eth_custodial.Store.Types.{DispatchStatus}
use eth_custodial.Store.Tables.{OtxRow, Db, NewOtx}
use eth_custodial.Store.Results.{ok}
use eth_custodial.Store.Queries
use eth_custodial.Store.Queries.Inversion.{
  acquire_nonce-Acquired, insert_otx-Inserted, insert_dispatch-Dispatched,
}
use eth_custodial.Store.Sound.{IsSound, IsReserved, IsRecorded, IsBacked}
use eth_custodial.Store.Sound.Nonces.{acquire_nonce-IsReserved}
use eth_custodial.Store.Sound.Records.{insert-IsSound, insert-IsRecorded}
use eth_custodial.Store.Sound.Updates.{
  add_jobs-IsSound, update_dispatch_status-IsSound, insert_keypair-IsSound,
}
use eth_custodial.World.{M}
use eth_custodial.World.Hoare.{Assert, Hoare, Still, Hoare-pure, still, ◌⨾◌}
use eth_custodial.Runtime.{Env}
use eth_custodial.Pg
use eth_custodial.Pg.Rules.{
  Still-external, Still-next_otx_id, Still-next_dispatch_id, Still-next_keystore_id, Hoare-write,
  Hoare-write_returning, Hoare-begin, Hoare-commit,
}

-- `E` holds of the committed database, and `R` of the view of the transaction.
abbrev pub Both : (Db → Type 0) → (Db → Type 0) → Assert
Both E R c w = E c × R w

-- The committed database is sound, and is still `c0`.
abbrev pub Kept : Db → Db → Type 0
Kept c0 c = IsSound c × (c ≡ c0)

-- The transactions that the worker has recorded so far.
abbrev pub AreRecorded : List DispatchArgs → Db → Type 0
AreRecorded txs d = All (λ a. IsRecorded a d.otx) txs

pub record Issued (txs : List DispatchArgs) (d : Db) : Type 0 where
  pub sound : IsSound d
  pub recorded : AreRecorded txs d

-- The same with a nonce in hand.
pub record Holding (pk : String) (n : ℕ) (txs : List DispatchArgs) (d : Db) : Type 0 where
  pub reserved : IsReserved pk n d
  pub recorded : AreRecorded txs d

-- Whatever `m` does, the committed database keeps `E`; the view goes from `R` to `S`.
abbrev pub Triple : {A : Type 0} → (Db → Type 0) → (Db → Type 0) → M A → (A → Db → Type 0) → Type 0
Triple E R m S = Hoare E (Both E R) m (λ a. Both E (S a))

-- `m` ends with the commit: a sound database, or an error and the database as it was.
abbrev pub Finishes : Db → (Db → Type 0) → M Unit → Type 0
Finishes c0 R m = Hoare (Kept c0) (Both (Kept c0) R) m (λ _ c w. IsSound c)

module _ {A : Type 0} {E R : Db → Type 0} where
  pub steady : {m : M A} → Still m → Triple E R m (λ _. R)
  steady s = still (λ c w p. p.0) s

module _ (env : Env) where
  pub Triple-begin : {c0 : Db} → Triple (Kept c0) (λ _. Unit) (Pg.begin env) (λ _. Issued [])
  Triple-begin =
      Hoare-begin env (λ c w p. p.0) (λ c w p. (p.0, record { sound = p.0.0; recorded = tt }))

  pub Finishes-commit :
      {c0 : Db} {txs : List DispatchArgs} → Finishes c0 (Issued txs) (Pg.commit env)
  Finishes-commit = Hoare-commit env (λ c w p. p.0) (λ c w p. p.1.sound)

  acquired-AreRecorded :
      (pk : String) (n : ℕ) (d d' : Db) (txs : List DispatchArgs)
      → Queries.acquire_nonce pk d ≡ ok (n, d')
      → AreRecorded txs d
      → AreRecorded txs d'
  acquired-AreRecorded pk n d d' txs h r = rw (acquire_nonce-Acquired pk n d d' h).after r

  pub Triple-acquire_nonce :
      {E : Db → Type 0} {txs : List DispatchArgs} (pk : String)
      → Triple E (Issued txs) (Pg.acquire_nonce env pk) (λ n. Holding pk n txs)
  unfolding Pg.acquire_nonce
  Triple-acquire_nonce {txs} pk = steady (Still-external env) ⨾ λ _.
      Hoare-write_returning (Queries.acquire_nonce pk) (λ c w p. p.0)
        λ n c d d' p h. (
          p.0,
          record {
            reserved = acquire_nonce-IsReserved pk n d d' p.1.sound h;
            recorded = acquired-AreRecorded pk n d d' txs h p.1.recorded;
          },
        )

  add_jobs-Issued :
      (txs : List DispatchArgs) (js : List Job) (d d' : Db)
      → ((e : Db) → AreRecorded txs e → All (IsBacked e.otx) js)
      → Issued txs d
      → ok (Queries.add_jobs js d) ≡ ok d'
      → Issued txs d'
  add_jobs-Issued txs js d d' backed i h =
      let e : Queries.add_jobs js d ≡ d' = cc in
      rw (← e) (record {
        sound = add_jobs-IsSound js d i.sound (backed d i.recorded);
        recorded = i.recorded;
      })

  pub Triple-insert_many_tx :
      {E : Db → Type 0} {txs : List DispatchArgs} (js : List Job)
      → ((d : Db) → AreRecorded txs d → All (IsBacked d.otx) js)
      → Triple E (Issued txs) (Pg.insert_many_tx env js) (λ _. Issued txs)
  unfolding Pg.insert_many_tx
  Triple-insert_many_tx {txs} js backed = steady (Still-external env) ⨾ λ _.
      Hoare-write (λ w d. ok (Queries.add_jobs js d)) (λ c w p. p.0)
        λ w c d d' p h. (p.0, add_jobs-Issued txs js d d' backed p.1 h)

  pub Triple-update_dispatch_tx_status :
      {E : Db → Type 0} (i : ℕ) (s : DispatchStatus)
      → Triple E IsSound (Pg.update_dispatch_tx_status env i s) (λ _. IsSound)
  unfolding Pg.update_dispatch_tx_status
  Triple-update_dispatch_tx_status i s = steady (Still-external env) ⨾ λ _.
      Hoare-write (λ w d. Queries.update_dispatch_status w.began_at i s d) (λ c w p. p.0)
        λ w c d d' p h. (p.0, update_dispatch_status-IsSound w.began_at i s d d' p.1 h)

  pub Triple-insert_key_pair :
      {E : Db → Type 0} (key : Key)
      → Triple E (Issued []) (Pg.insert_key_pair env key) (λ _. Issued [])
  unfolding Pg.insert_key_pair
  Triple-insert_key_pair key = steady (Still-external env) ⨾ λ _.
      steady Still-next_keystore_id ⨾ λ id.
      Hoare-write (λ w d. Queries.insert_keypair id key d) (λ c w p. p.0)
        λ w c d d' p h.
          (p.0, record { sound = insert_keypair-IsSound id key d d' p.1.sound h; recorded = tt })

-- Between `InsertOTX` and `InsertDispatchTx`.
pub record Inserting (o : NewOtx) (id : ℕ) (txs : List DispatchArgs) (d : Db) : Type 0 where
  pub before : Db
  pub now : ℕ
  pub holding : Holding o.signer_account o.nonce txs before
  pub inserted : Queries.insert_otx id now o before ≡ ok d

-- The arguments that a dispatch job of the new transaction has.
abbrev pub args_of : NewOtx → ℕ → DispatchArgs
args_of o id = record { tracking_id = o.tracking_id; otx_id = id; raw_tx = o.raw_tx }

AreRecorded-cons :
    (row : OtxRow) (txs : List DispatchArgs) (d d' : Db)
    → d'.otx ≡ row ∷ d.otx
    → AreRecorded txs d
    → AreRecorded txs d'
AreRecorded-cons row txs d d' e =
    All-map (λ a. IsRecorded a d.otx) (λ a. IsRecorded a d'.otx) txs (λ a h. rw e (inr h))

inserted-Issued :
    (o : NewOtx) (id now did now' : ℕ) (s : DispatchStatus) (txs : List DispatchArgs) (d d1 d2 : Db)
    → Holding o.signer_account o.nonce txs d
    → Queries.insert_otx id now o d ≡ ok d1
    → Queries.insert_dispatch did now' id s d1 ≡ ok d2
    → Issued (args_of o id ∷ txs) d2
inserted-Issued o id now did now' s txs d d1 d2 h e1 e2 =
    let i = insert_otx-Inserted id now o d d1 e1 in
    let p = insert_dispatch-Dispatched did now' id s d1 d2 e2 in
    record {
      sound = insert-IsSound id now did now' s o d d1 d2 h.reserved e1 e2;
      recorded = (
        insert-IsRecorded id now did now' s o d d1 d2 e1 e2,
        AreRecorded-cons (Queries.otx_row id now i.signer o) txs d d2 (rw (p.after, i.after))
            h.recorded,
      );
    }

module _ (env : Env) where
  pub Triple-insert_otx :
      {E : Db → Type 0} {txs : List DispatchArgs} (o : NewOtx)
      → Triple E
          (Holding o.signer_account o.nonce txs)
          (Pg.insert_otx env o)
          (λ id. Inserting o id txs)
  unfolding Pg.insert_otx
  Triple-insert_otx {E} {txs} o = steady (Still-external env) ⨾ λ _.
      steady Still-next_otx_id ⨾ λ id.
      Hoare-write {Q = Both E (Inserting o id txs)} (λ w d. Queries.insert_otx id w.began_at o d)
        (λ c w p. p.0)
        (λ w c d d' p h.
          (p.0, record { before = d; now = w.began_at; holding = p.1; inserted = h }))
      ⨾ λ _. Hoare-pure id (λ c w p. p)

  pub Triple-insert_dispatch_tx :
      {E : Db → Type 0} {o : NewOtx} {id : ℕ} {txs : List DispatchArgs} (s : DispatchStatus)
      → Triple E
          (Inserting o id txs)
          (Pg.insert_dispatch_tx env id s)
          (λ _. Issued (args_of o id ∷ txs))
  unfolding Pg.insert_dispatch_tx
  Triple-insert_dispatch_tx {o} {id} {txs} s = steady (Still-external env) ⨾ λ _.
      steady Still-next_dispatch_id ⨾ λ did.
      Hoare-write (λ w d. Queries.insert_dispatch did w.began_at id s d) (λ c w p. p.0)
        λ w c d d' p h. (
          p.0,
          inserted-Issued o id p.1.now did w.began_at s txs p.1.before d d' p.1.holding p.1.inserted
              h,
        )
