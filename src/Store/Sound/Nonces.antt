-- ===== src/Store/Sound/Nonces.antt =====
-- `AcquireNonce` keeps the invariant, and the nonce that it returns is free.
use eth_custodial.Prelude.{ℕ, ◌+◌, ◌≡◌, refl, String, some, List, [], ◌∷◌, arith, All, All-map}
use eth_custodial.Store.Tables.{NonceRow, OtxRow, Db}
use eth_custodial.Store.Results.{ok}
use eth_custodial.Store.Queries.{next_nonce_of, set_next_nonce, key_id, acquire_nonce}
use eth_custodial.Store.Queries.Inversion.{next_nonce_of-set_next_nonce, acquire_nonce-Acquired}
use eth_custodial.Store.Sound.{IsBelow, IsGivenOut, IsFree, IsSound, IsReserved}

-- Raising a signer's next nonce keeps what has been given out.
set_next_nonce-IsGivenOut :
    (i n : ℕ) (ns : List NonceRow) (o : OtxRow)
    → next_nonce_of i ns ≡ some n
    → IsGivenOut ns o
    → IsGivenOut (set_next_nonce i (n + 1) ns) o
set_next_nonce-IsGivenOut i n ns o e h =
    ground (arith, next_nonce_of-set_next_nonce i o.signer_account n (n + 1) ns)

-- What lies at the next nonce or above is free.
IsFree-of_next :
    (i n : ℕ) (ns : List NonceRow) (os : List OtxRow)
    → next_nonce_of i ns ≡ some n
    → All (IsGivenOut ns) os
    → IsFree i n os
IsFree-of_next i n ns [] e h = tt
IsFree-of_next i n ns (o ∷ os) e h = (ground arith, IsFree-of_next i n ns os e h.1)

raise_next : ℕ → ℕ → Db → Db
raise_next i n d = record d { noncestore = set_next_nonce i (n + 1) d.noncestore }

raise_next-IsSound :
    (i n : ℕ) (d : Db)
    → next_nonce_of i d.noncestore ≡ some n
    → IsSound d
    → IsSound (raise_next i n d)
unfolding raise_next
raise_next-IsSound i n d e s = record {
  given_out =
      All-map (IsGivenOut d.noncestore) (IsGivenOut (set_next_nonce i (n + 1) d.noncestore)) d.otx
        (λ o h. set_next_nonce-IsGivenOut i n d.noncestore o e h) s.given_out;
  nonces = s.nonces;
  ids = s.ids;
  tracked = s.tracked;
  referenced = s.referenced;
  backed = s.backed;
}

key_id-raise_next : (pk : String) (i n : ℕ) (d : Db) → key_id pk (raise_next i n d) ≡ key_id pk d
unfolding raise_next key_id
key_id-raise_next pk i n d = refl

raise_next-IsBelow :
    (i n : ℕ) (d : Db)
    → next_nonce_of i d.noncestore ≡ some n
    → IsBelow (next_nonce_of i (raise_next i n d).noncestore) n
unfolding raise_next
raise_next-IsBelow i n d e = ground (arith, next_nonce_of-set_next_nonce i i n (n + 1) d.noncestore)

raise_next-IsReserved :
    (pk : String) (i n : ℕ) (d : Db)
    → key_id pk d ≡ ok (some i)
    → next_nonce_of i d.noncestore ≡ some n
    → IsSound d
    → IsReserved pk n (raise_next i n d)
raise_next-IsReserved pk i n d k e s = record {
  sound = raise_next-IsSound i n d e s;
  held =
      rw (key_id-raise_next pk i n d, k)
        (
          raise_next-IsBelow i n d e,
          unfold raise_next in IsFree-of_next i n d.noncestore d.otx e s.given_out,
        );
}

pub acquire_nonce-IsReserved :
    (pk : String) (n : ℕ) (d d' : Db)
    → IsSound d
    → acquire_nonce pk d ≡ ok (n, d')
    → IsReserved pk n d'
acquire_nonce-IsReserved pk n d d' s h =
    let a = acquire_nonce-Acquired pk n d d' h in
    rw a.after (unfold raise_next in raise_next-IsReserved pk a.signer n d a.known a.current s)
