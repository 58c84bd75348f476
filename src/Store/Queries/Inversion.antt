-- ===== src/Store/Queries/Inversion.antt =====
-- What a query that succeeded found in the tables, and what it left there.
use eth_custodial.Prelude.{
  ℕ, ◌+◌, ◌<◌, ◌≡◌, refl, arith, String, Bool, true, false, not, ◌&&◌, ◌||◌, Option, none, some,
  List, [], ◌∷◌, ltb, ◌==◌, if◌then◌else◌,
}
use eth_custodial.Jobs.{Key}
use eth_custodial.Store.Types.{DispatchStatus, is_status_type, is_otx_type}
use eth_custodial.Store.Tables.{NonceRow, Db, NewOtx}
use eth_custodial.Store.Results.{Error, Result, ok, err, foreign_key, unique}
use eth_custodial.Store.Queries.{
  int_max, with_key, has_key, is_some, key_id, next_nonce_of, set_next_nonce, bump_row, acquire,
  acquire_nonce, otx_row, has_otx, add_otx, insert_otx, insert_dispatch, set_status, has_dispatch,
  update_dispatch_status, insert_keypair,
}

-- The next nonce of a key after a change of another key's, or of its own.
pub next_nonce_of-set_next_nonce :
    (i j m n : ℕ) (rs : List NonceRow)
    → next_nonce_of i rs ≡ some m
    → next_nonce_of j (set_next_nonce i n rs) ≡ (if i == j then some n else next_nonce_of j rs)
unfolding next_nonce_of set_next_nonce
next_nonce_of-set_next_nonce i j m n [] h = ground arith
next_nonce_of-set_next_nonce i j m n (r ∷ rs) h =
    ground (arith, next_nonce_of-set_next_nonce i j m n rs)

pub set_next_nonce-set_next_nonce :
    (i m n : ℕ) (ns : List NonceRow)
    → set_next_nonce i m (set_next_nonce i n ns) ≡ set_next_nonce i m ns
unfolding set_next_nonce
set_next_nonce-set_next_nonce i m n [] = refl
set_next_nonce-set_next_nonce i m n (r ∷ rs) =
    ground (arith, set_next_nonce-set_next_nonce i m n rs)

-- What a successful `acquire_nonce` did: it found the key and its row, and raised the row by one.
pub record Acquired (pk : String) (n : ℕ) (d d' : Db) : Type 0 where
  pub signer : ℕ
  pub known : key_id pk d ≡ ok (some signer)
  pub current : next_nonce_of signer d.noncestore ≡ some n
  pub small : n < int_max
  pub after : d' ≡ record d { noncestore = set_next_nonce signer (n + 1) d.noncestore }

pub acquire_nonce-Acquired :
    (pk : String) (n : ℕ) (d d' : Db) → acquire_nonce pk d ≡ ok (n, d') → Acquired pk n d d'
unfolding acquire_nonce
acquire_nonce-Acquired pk n d d' h = go (key_id pk d) refl h
  where
    bump :
        (i : ℕ) (m : Option ℕ)
        → key_id pk d ≡ ok (some i)
        → next_nonce_of i d.noncestore ≡ m
        → bump_row i m d ≡ ok (n, d')
        → Acquired pk n d d'
    bump i none e f h = cc
    bump i (some m) e f h = record {
      signer = i;
      known = e;
      current = ground arith;
      small = ground arith;
      after = ground arith;
    }

    go : (k : Result (Option ℕ)) → key_id pk d ≡ k → acquire k d ≡ ok (n, d') → Acquired pk n d d'
    go (err x) e h = cc
    go (ok none) e h = cc
    go (ok (some i)) e h = bump i (next_nonce_of i d.noncestore) e refl h

-- What a successful `insert_otx` did.
pub record Inserted (id now : ℕ) (o : NewOtx) (d d' : Db) : Type 0 where
  pub signer : ℕ
  pub known : key_id o.signer_account d ≡ ok (some signer)
  pub fresh : has_otx id d.otx ≡ false
  pub after : d' ≡ record d { otx = otx_row id now signer o ∷ d.otx }

-- A chain of three tests that let a result through.
passed :
    (a b c : Bool) (x y z : Error) {r d : Db}
    → (if a then err x else if b then err y else if c then ok r else err z) ≡ ok d
    → (b ≡ false) × (d ≡ r)
passed true b c x y z h = cc
passed false true c x y z h = cc
passed false false true x y z h = (refl, ground arith)
passed false false false x y z h = cc

pub insert_otx-Inserted :
    (id now : ℕ) (o : NewOtx) (d d' : Db) → insert_otx id now o d ≡ ok d' → Inserted id now o d d'
unfolding insert_otx
insert_otx-Inserted id now o d d' h = go (key_id o.signer_account d) refl h
  where
    go :
        (k : Result (Option ℕ))
        → key_id o.signer_account d ≡ k
        → add_otx k id now o d ≡ ok d'
        → Inserted id now o d d'
    go (err x) e h = cc
    go (ok none) e h = cc
    go (ok (some i)) e h =
        let (fresh, after) =
          passed (ltb int_max o.nonce) (has_otx id d.otx) (is_otx_type o.otx_type) _ _ _ h in
        record { signer = i; known = e; fresh = fresh; after = after }

-- What a successful `insert_dispatch` did.
pub record Dispatched (id now otx_id : ℕ) (s : DispatchStatus) (d d' : Db) : Type 0 where
  pub known : has_otx otx_id d.otx ≡ true
  pub after : d' ≡ record d {
    dispatch = record { id = id; otx_id = otx_id; status = s; updated_at = now } ∷ d.dispatch;
  }

pub insert_dispatch-Dispatched :
    (id now otx_id : ℕ) (s : DispatchStatus) (d d' : Db)
    → insert_dispatch id now otx_id s d ≡ ok d'
    → Dispatched id now otx_id s d d'
unfolding insert_dispatch
insert_dispatch-Dispatched id now otx_id s d d' h = record {
  known = ground arith;
  after = ground arith;
}

-- What a successful `update_dispatch_status` did.
pub update_dispatch_status_after :
    (now i : ℕ) (s : DispatchStatus) (d d' : Db)
    → update_dispatch_status now i s d ≡ ok d'
    → d' ≡ record d { dispatch = set_status i now s d.dispatch }
unfolding update_dispatch_status
update_dispatch_status_after now i s d d' h =
    go (has_dispatch i d.dispatch && not (is_status_type s)) h
  where
    go :
        (b : Bool)
        → (if b
            then err foreign_key
            else ok (record d { dispatch = set_status i now s d.dispatch }))
          ≡ ok d'
        → d' ≡ record d { dispatch = set_status i now s d.dispatch }
    go true h = cc
    go false h = ground arith

-- A new key has no row of the noncestore yet.
pub insert_keypair_after :
    (id : ℕ) (key : Key) (d d' : Db)
    → insert_keypair id key d ≡ ok d'
    → (next_nonce_of id d.noncestore ≡ none) × (d' ≡ with_key id key false d)
unfolding insert_keypair
insert_keypair_after id key d d' h =
    go (has_key id d.keystore) (next_nonce_of id d.noncestore) refl h
  where
    go :
        (b : Bool) (m : Option ℕ)
        → next_nonce_of id d.noncestore ≡ m
        → (if b || is_some m then err unique else ok (with_key id key false d)) ≡ ok d'
        → (next_nonce_of id d.noncestore ≡ none) × (d' ≡ with_key id key false d)
    go true m e h = cc
    go false (some n) e h = cc
    go false none e h = (e, ground arith)
