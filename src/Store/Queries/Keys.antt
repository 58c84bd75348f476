-- ===== src/Store/Queries/Keys.antt =====
-- The queries on the tables keystore, noncestore and master_key that internal/store/key.go runs, and
-- what finds a key and its nonce.
use eth_custodial.Prelude.{
  ℕ, String, Bool, true, false, ◌||◌, Option, none, some, List, [], ◌∷◌, ◌==◌, if◌then◌else◌,
  str_eq,
}
use eth_custodial.Jobs.{Key}
use eth_custodial.Store.Tables.{KeyRow, NonceRow, Db}
use eth_custodial.Store.Results.{Result, ok, err, no_rows, too_many_rows, subquery_rows, unique}

-- `SELECT … FROM keystore WHERE public_key = $1`
unfoldable pub keys_of : String → List KeyRow → List KeyRow
keys_of pk [] = []
keys_of pk (k ∷ ks) = let rest = keys_of pk ks in if str_eq k.public_key pk then k ∷ rest else rest

-- `(SELECT id FROM keystore WHERE public_key = $1)`, NULL where no row has the key.
abbrev pub only_id : List KeyRow → Result (Option ℕ)
only_id [] = ok none
only_id (k ∷ []) = ok (some k.id)
only_id (k ∷ l ∷ r) = err subquery_rows

unfoldable pub key_id : String → Db → Result (Option ℕ)
unfolding keys_of
key_id pk d = only_id (keys_of pk d.keystore)

-- The row of a key in the noncestore, whose primary key is the key's id.
unfoldable pub next_nonce_of : ℕ → List NonceRow → Option ℕ
next_nonce_of i [] = none
next_nonce_of i (r ∷ rs) = if r.keystore_id == i then some r.next_nonce else next_nonce_of i rs

unfoldable pub has_key : ℕ → List KeyRow → Bool
has_key i [] = false
has_key i (k ∷ ks) = k.id == i || has_key i ks

abbrev pub is_some : {A : Type 0} → Option A → Bool
is_some none = false
is_some (some a) = true

abbrev pub with_key : ℕ → Key → Bool → Db → Db
with_key id key active d = record d {
  keystore =
      record { id = id; public_key = key.public; private_key = key.private; active = active }
      ∷ d.keystore;
  noncestore = record { keystore_id = id; next_nonce = 0 } ∷ d.noncestore;
}

-- A new row of the keystore, with the row that the trigger `insert_starting_nonce` adds to the
-- noncestore; `id` is drawn from the sequence, and is the primary key of both.
unfoldable pub add_key : ℕ → Key → Bool → Db → Result Db
unfolding has_key next_nonce_of
add_key id key active d =
    if has_key id d.keystore || is_some (next_nonce_of id d.noncestore)
    then err unique
    else ok (with_key id key active d)

-- insert-keypair
unfoldable pub insert_keypair : ℕ → Key → Db → Result Db
unfolding add_key
insert_keypair id key d = add_key id key false d

unfoldable pub activate : String → List KeyRow → List KeyRow
activate pk [] = []
activate pk (k ∷ ks) =
    (if str_eq k.public_key pk then record k { active = true } else k) ∷ activate pk ks

-- activate-keypair
unfoldable pub activate_keypair : String → Db → Db
unfolding activate
activate_keypair pk d = record d { keystore = activate pk d.keystore }

abbrev pub key_of_row : KeyRow → Key
key_of_row k = record { public = k.public_key; private = k.private_key }

abbrev pub scan_key : List KeyRow → Result Key
scan_key [] = err no_rows
scan_key (x ∷ []) = ok (key_of_row x)
scan_key (x ∷ y ∷ r) = err too_many_rows

-- load-key
unfoldable pub load_key : String → Db → Result Key
unfolding keys_of
load_key pk d = scan_key (keys_of pk d.keystore)

abbrev pub first_active : List KeyRow → Bool
first_active [] = false
first_active (k ∷ r) = k.active

-- check-keypair: `QueryRow` reads the first row, and no row counts as inactive.
unfoldable pub check_keypair : String → Db → Bool
unfolding keys_of
check_keypair pk d = first_active (keys_of pk d.keystore)

unfoldable pub keys_with_id : ℕ → List KeyRow → List KeyRow
keys_with_id i [] = []
keys_with_id i (k ∷ ks) = let rest = keys_with_id i ks in if k.id == i then k ∷ rest else rest

abbrev pub master_rows : List ℕ → List KeyRow → List KeyRow
unfolding keys_with_id
master_rows [] ks = []
master_rows (i ∷ r) ks = keys_with_id i ks

-- load-master-key
unfoldable pub load_master_key : Db → Result Key
unfolding keys_with_id
load_master_key d = scan_key (master_rows d.master_key d.keystore)

abbrev pub put_master : ℕ → Result Db → Result Db
put_master id (err e) = err e
put_master id (ok d) = ok (record d { master_key = id ∷ d.master_key })

-- bootstrap-master-key: both rows, or none where a master key is there.
unfoldable pub bootstrap_master_key : ℕ → Key → Db → Result Db
unfolding add_key
bootstrap_master_key id key d = elim d.master_key [
  | [] ↦ put_master id (add_key id key true d)
  | _ ↦ ok d
]
