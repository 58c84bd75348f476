-- ===== src/Tests/Store.antt =====
-- The theorems on the store at concrete rows.
use eth_custodial.Prelude.{ℕ, ◌≡◌, ◌≢◌, refl, ◌⊎◌, arith, true, some, [], ◌∷◌}
use eth_custodial.Store.Types.{in_network, unknown_rpc_error}
use eth_custodial.Store.Tables.{Db}
use eth_custodial.Store.Results.{ok, err, out_of_range, foreign_key}
use eth_custodial.Store.Queries.{
  int_max, key_id, next_nonce_of, has_otx, acquire_nonce, peek_nonce, set_account_nonce,
  has_dispatch, update_dispatch_status,
}
use eth_custodial.Store.NonceOrder.{
  acquire_nonce-acquire_nonce, peek_nonce-acquire_nonce, acquire_nonce-set_account_nonce,
}
use eth_custodial.Store.Statuses.{status_of, update_dispatch_status_tracked}
use eth_custodial.Store.Sound.{IsSound}
use eth_custodial.Tests.{sample_db}

abbrev raised_db : Db
raised_db = record sample_db { noncestore = record { keystore_id = 1; next_nonce = 6 } ∷ [] }

acquired : acquire_nonce "0xalice" sample_db ≡ ok (5, raised_db)
unfolding acquire_nonce
acquired = refl

acquire_nonce-acquire_nonce_example :
    ((d'' : Db) × (acquire_nonce "0xalice" raised_db ≡ ok (6, d'')))
    ⊎ ((6 ≡ int_max) × (acquire_nonce "0xalice" raised_db ≡ err out_of_range))
acquire_nonce-acquire_nonce_example =
    acquire_nonce-acquire_nonce "0xalice" 5 sample_db raised_db acquired

peek_nonce-acquire_nonce_example :
    (peek_nonce "0xalice" raised_db ≡ ok 5)
    × ((j : ℕ)
        → key_id "0xalice" sample_db ≢ ok (some j)
        → next_nonce_of j raised_db.noncestore ≡ next_nonce_of j sample_db.noncestore)
peek_nonce-acquire_nonce_example = peek_nonce-acquire_nonce "0xalice" 5 sample_db raised_db acquired

known : key_id "0xalice" sample_db ≡ ok (some 1)
unfolding key_id
known = refl

current : next_nonce_of 1 sample_db.noncestore ≡ some 5
unfolding next_nonce_of
current = refl

acquire_nonce-set_account_nonce_example :
    (d' d'' : Db) × (set_account_nonce "0xalice" 9 sample_db ≡ ok d')
    × (acquire_nonce "0xalice" d' ≡ ok (9, d''))
acquire_nonce-set_account_nonce_example =
    acquire_nonce-set_account_nonce "0xalice" 1 5 9 sample_db known current (omega arith)

pub is_tracked : has_dispatch 1 sample_db.dispatch ≡ true
unfolding has_dispatch
is_tracked = refl

update_dispatch_status_tracked_example :
    ((in_network ≡ unknown_rpc_error)
      × (update_dispatch_status 950 1 in_network sample_db ≡ err foreign_key))
    ⊎ ((in_network ≢ unknown_rpc_error)
        × ((d' : Db) × (update_dispatch_status 950 1 in_network sample_db ≡ ok d')
            × (status_of 1 d'.dispatch ≡ some in_network)
            × ((j : ℕ) → 1 ≢ j → status_of j d'.dispatch ≡ status_of j sample_db.dispatch)))
update_dispatch_status_tracked_example =
    update_dispatch_status_tracked 950 1 in_network sample_db is_tracked

pub sample_db-IsSound : IsSound sample_db
unfolding next_nonce_of has_otx
sample_db-IsSound = record {
  given_out = (omega arith, tt);
  nonces = (tt, tt);
  ids = (refl, tt);
  tracked = (refl, tt);
  referenced = (refl, tt);
  backed = tt;
}
