-- ===== src/Store/NonceOrder.antt =====
-- The nonces that `AcquireNonce` of internal/store/nonce.go hands out, one after the other, and
-- what `PeekNonce` and `SetAccountNonce` say of them.
use eth_custodial.Prelude.{
  ℕ, ◌+◌, ◌-◌, ◌<◌, ◌≡◌, ◌≢◌, refl, String, some, List, arith, ltb, if◌then◌else◌, Option, ◌==◌,
  ◌∙◌, ap, Bool-cases, inl, inr, ◌⊎◌,
}
use eth_custodial.Store.Tables.{NonceRow, Db}
use eth_custodial.Store.Results.{ok, err, out_of_range}
use eth_custodial.Store.Queries.{
  int_max, next_nonce_of, set_next_nonce, key_id, acquire_nonce, peek_nonce, set_account_nonce,
}
use eth_custodial.Store.Queries.Inversion.{
  next_nonce_of-set_next_nonce, Acquired, acquire_nonce-Acquired,
}

next_after :
    (i n : ℕ) (ns : List NonceRow)
    → next_nonce_of i ns ≡ some n
    → next_nonce_of i (set_next_nonce i (n + 1) ns) ≡ some (n + 1)
next_after i n ns e = ground (arith, next_nonce_of-set_next_nonce i i n (n + 1) ns)

-- A database that differs in the noncestore.
abbrev with_nonces : List NonceRow → Db → Db
with_nonces ns d = record d { noncestore = ns }

key_id-with_nonces :
    (pk : String) (ns : List NonceRow) (d : Db) → key_id pk (with_nonces ns d) ≡ key_id pk d
unfolding key_id
key_id-with_nonces pk ns d = refl

-- What `acquire_nonce` does when it finds the key and its row.
acquire_nonce_found :
    (pk : String) (i n : ℕ) (d : Db)
    → key_id pk d ≡ ok (some i)
    → next_nonce_of i d.noncestore ≡ some n
    → acquire_nonce pk d ≡ (
        if ltb n int_max
        then ok (n, with_nonces (set_next_nonce i (n + 1) d.noncestore) d)
        else err out_of_range)
unfolding acquire_nonce
acquire_nonce_found pk i n d k e = rw (k, e) refl

peek_nonce_found :
    (pk : String) (i n : ℕ) (d : Db)
    → key_id pk d ≡ ok (some i)
    → next_nonce_of i d.noncestore ≡ some n
    → peek_nonce pk d ≡ ok (n - 1)
unfolding peek_nonce
peek_nonce_found pk i n d k e = rw (k, e) refl

-- Where a successful `acquire_nonce` leaves the key.
record Next (pk : String) (i n : ℕ) (d' : Db) : Type 0 where
  known : key_id pk d' ≡ ok (some i)
  current : next_nonce_of i d'.noncestore ≡ some (n + 1)

Acquired-Next : (pk : String) (n : ℕ) (d d' : Db) (a : Acquired pk n d d') → Next pk a.signer n d'
Acquired-Next pk n d d' a = rw a.after (record {
  known = key_id-with_nonces pk _ d ∙ a.known;
  current = next_after a.signer n d.noncestore a.current;
})

one_more :
    (pk : String) (i n : ℕ) (d : Db)
    → n < int_max
    → acquire_nonce pk d ≡ (
        if ltb (n + 1) int_max
        then ok (n + 1, with_nonces (set_next_nonce i (n + 1 + 1) d.noncestore) d)
        else err out_of_range)
    → ((d'' : Db) × (acquire_nonce pk d ≡ ok (n + 1, d'')))
      ⊎ ((n + 1 ≡ int_max) × (acquire_nonce pk d ≡ err out_of_range))
one_more pk i n d s h = elim (Bool-cases (ltb (n + 1) int_max)) [
  | inl t ↦ inl (with_nonces (set_next_nonce i (n + 1 + 1) d.noncestore) d, h ∙ rw t refl)
  | inr f ↦ inr (ground arith, h ∙ rw f refl)
]

-- A key's nonces are consecutive: after a nonce `n`, the next call for the same key returns
-- `n + 1`, unless the column would overflow, in which case it fails.
pub acquire_nonce-acquire_nonce :
    (pk : String) (n : ℕ) (d d' : Db)
    → acquire_nonce pk d ≡ ok (n, d')
    → ((d'' : Db) × (acquire_nonce pk d' ≡ ok (n + 1, d'')))
      ⊎ ((n + 1 ≡ int_max) × (acquire_nonce pk d' ≡ err out_of_range))
acquire_nonce-acquire_nonce pk n d d' h =
    let a = acquire_nonce-Acquired pk n d d' h in
    let next = Acquired-Next pk n d d' a in
    one_more pk a.signer n d' a.small
      (acquire_nonce_found pk a.signer (n + 1) d' next.known next.current)

not_signer : (i j : ℕ) (x y : Option ℕ) → i ≢ j → (if i == j then x else y) ≡ y
not_signer i j x y h = ground arith

-- After a nonce `n` was acquired for a key, `PeekNonce` of the key returns `n`, and the next
-- nonce of every other row of the noncestore is what it was.
pub peek_nonce-acquire_nonce :
    (pk : String) (n : ℕ) (d d' : Db)
    → acquire_nonce pk d ≡ ok (n, d')
    → (peek_nonce pk d' ≡ ok n)
      × ((j : ℕ)
          → key_id pk d ≢ ok (some j)
          → next_nonce_of j d'.noncestore ≡ next_nonce_of j d.noncestore)
peek_nonce-acquire_nonce pk n d d' h =
    let a = acquire_nonce-Acquired pk n d d' h in
    let next = Acquired-Next pk n d d' a in
    (
      peek_nonce_found pk a.signer (n + 1) d' next.known next.current ∙ ap ok (omega arith),
      λ j other. rw a.after (
          next_nonce_of-set_next_nonce a.signer j n (n + 1) d.noncestore a.current
          ∙ not_signer a.signer j _ _ (λ e. other (a.known ∙ ap (λ x. ok (some x)) e))),
    )

set_account_nonce_found :
    (pk : String) (i n : ℕ) (d : Db)
    → key_id pk d ≡ ok (some i)
    → n < int_max
    → set_account_nonce pk n d ≡ ok (with_nonces (set_next_nonce i n d.noncestore) d)
unfolding set_account_nonce
set_account_nonce_found pk i n d k s = rw k (ground arith)

-- For a key that has a row, `SetAccountNonce` with a number below the column's largest value
-- succeeds, and the next `AcquireNonce` of the key returns that number.
pub acquire_nonce-set_account_nonce :
    (pk : String) (i m n : ℕ) (d : Db)
    → key_id pk d ≡ ok (some i)
    → next_nonce_of i d.noncestore ≡ some m
    → n < int_max
    → (d' d'' : Db) × (set_account_nonce pk n d ≡ ok d') × (acquire_nonce pk d' ≡ ok (n, d''))
acquire_nonce-set_account_nonce pk i m n d k e s = (
  with_nonces (set_next_nonce i n d.noncestore) d,
  with_nonces (set_next_nonce i (n + 1) (set_next_nonce i n d.noncestore)) d,
  set_account_nonce_found pk i n d k s,
  acquire_nonce_found pk i n (with_nonces (set_next_nonce i n d.noncestore) d)
        (key_id-with_nonces pk _ d ∙ k)
        (ground (arith, next_nonce_of-set_next_nonce i i m n d.noncestore))
      ∙ ground arith,
)
