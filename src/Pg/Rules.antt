-- ===== src/Pg/Rules.antt =====
-- What each method of the store, of the queue and of the publisher does to the two databases.
use eth_custodial.Prelude.{ℕ, ◌≡◌, refl, String, Bool-cases, inl, inr}
use eth_custodial.Prelude.Int.{ℤ}
use eth_custodial.Jobs.{Event}
use eth_custodial.Store.Tables.{Db}
use eth_custodial.Store.Results.{Result, ok, err}
use eth_custodial.World.{World}
use eth_custodial.World.Hoare.{Assert, Ends, Hoare, Still, still, ◌⨾◌, Still-bind}
use eth_custodial.Runtime.{Env}
use eth_custodial.Pg.{
  read, read_committed, query, write, write_returning, replace_working, replace_returning,
  next_otx_id, next_dispatch_id, next_keystore_id, open_tx, publish_working, add_event, external,
  moment, begin_at, begin, commit, load_private_key, check_keypair, load_master_signer_key,
  peek_nonce, get_otx_by_tx_hash, get_otx_by_tracking_id, get_failed_otx, get_otx_by_account,
  get_otx_by_account_next, get_otx_by_account_previous, send,
}

pub Still-read : {A : Type 0} (f : World → Db → Result A) → Still (read f)
unfolding read
Still-read f = record { kept_committed = λ w. refl; kept_working = λ w. refl }

Still-read_committed : {A : Type 0} (f : Db → Result A) → Still (read_committed f)
unfolding read_committed
Still-read_committed f = record { kept_committed = λ w. refl; kept_working = λ w. refl }

pub Still-next_otx_id : Still next_otx_id
unfolding next_otx_id
Still-next_otx_id = record { kept_committed = λ w. refl; kept_working = λ w. refl }

pub Still-next_dispatch_id : Still next_dispatch_id
unfolding next_dispatch_id
Still-next_dispatch_id = record { kept_committed = λ w. refl; kept_working = λ w. refl }

pub Still-next_keystore_id : Still next_keystore_id
unfolding next_keystore_id
Still-next_keystore_id = record { kept_committed = λ w. refl; kept_working = λ w. refl }

Still-add_event : (e : Event) → Still (add_event e)
unfolding add_event
Still-add_event e = record { kept_committed = λ w. refl; kept_working = λ w. refl }

module _ {E : Db → Type 0} {P : Assert} where
  pub Hoare-write :
      {Q : Assert} (f : World → Db → Result Db)
      → ((c w : Db) → P c w → E c)
      → ((w : World) (c d d' : Db) → P c d → f w d ≡ ok d' → Q c d')
      → Hoare E P (write f) (λ _. Q)
  unfolding write
  Hoare-write {Q} f e h = record { at = λ w p. go w (f w w.working) p refl }
    where
      go :
          (w : World) (r : Result Db)
          → P w.committed w.working
          → f w w.working ≡ r
          → Ends E (λ _. Q) (replace_working r w).0 (replace_working r w).1
      go w (ok d) p q = h w w.committed w.working d p q
      go w (err x) p q = e w.committed w.working p

  pub Hoare-write_returning :
      {A : Type 0} {Q : A → Assert} (f : Db → Result (A × Db))
      → ((c w : Db) → P c w → E c)
      → ((a : A) (c d d' : Db) → P c d → f d ≡ ok (a, d') → Q a c d')
      → Hoare E P (write_returning f) Q
  unfolding write_returning
  Hoare-write_returning {A} {Q} f e h = record { at = λ w p. go w (f w.working) p refl }
    where
      go :
          (w : World) (r : Result (A × Db))
          → P w.committed w.working
          → f w.working ≡ r
          → Ends E Q (replace_returning r w).0 (replace_returning r w).1
      go w (ok (a, d)) p q = h a w.committed w.working d p q
      go w (err x) p q = e w.committed w.working p

Hoare-publish_working :
    {E : Db → Type 0} {P Q : Assert}
    → ((c w : Db) → P c w → Q w w)
    → Hoare E P publish_working (λ _. Q)
unfolding publish_working
Hoare-publish_working q = record { at = λ w p. q w.committed w.working p }

module _ (env : Env) where
  external_lem :
      (w : World)
      → ((external env w).1.committed ≡ w.committed) × ((external env w).1.working ≡ w.working)
  unfolding external
  external_lem w = elim (Bool-cases (env.fails w.clock)) [
    | inl e ↦ rw e (refl, refl)
    | inr e ↦ rw e (refl, refl)
  ]

  pub Still-external : Still (external env)
  Still-external = record {
    kept_committed = λ w. (external_lem w).0;
    kept_working = λ w. (external_lem w).1;
  }

  pub Still-moment : Still (moment env)
  unfolding moment
  Still-moment = record { kept_committed = λ w. refl; kept_working = λ w. refl }

  pub Still-query : {A : Type 0} (f : Db → Result A) → Still (query env f)
  unfolding query
  Still-query f = Still-bind Still-external (λ _. Still-read_committed f)

  pub Still-load_private_key : (pk : String) → Still (load_private_key env pk)
  unfolding load_private_key
  Still-load_private_key pk = Still-bind Still-external (λ _. Still-read _)

  pub Still-check_keypair : (pk : String) → Still (check_keypair env pk)
  unfolding check_keypair
  Still-check_keypair pk = Still-bind Still-external (λ _. Still-read _)

  pub Still-load_master_signer_key : Still (load_master_signer_key env)
  unfolding load_master_signer_key
  Still-load_master_signer_key = Still-bind Still-external (λ _. Still-read _)

  pub Still-peek_nonce : (pk : String) → Still (peek_nonce env pk)
  unfolding peek_nonce
  Still-peek_nonce pk = Still-bind Still-external (λ _. Still-read _)

  pub Still-get_otx_by_tx_hash : (h : String) → Still (get_otx_by_tx_hash env h)
  unfolding get_otx_by_tx_hash
  Still-get_otx_by_tx_hash h = Still-bind Still-external (λ _. Still-read _)

  pub Still-get_otx_by_tracking_id : (i : String) → Still (get_otx_by_tracking_id env i)
  unfolding get_otx_by_tracking_id
  Still-get_otx_by_tracking_id i = Still-bind Still-external (λ _. Still-read _)

  pub Still-get_otx_by_account : (pk : String) (n : ℕ) → Still (get_otx_by_account env pk n)
  unfolding get_otx_by_account
  Still-get_otx_by_account pk n = Still-bind Still-external (λ _. Still-read _)

  pub Still-get_otx_by_account_next :
      (pk : String) (c : ℤ) (n : ℕ) → Still (get_otx_by_account_next env pk c n)
  unfolding get_otx_by_account_next
  Still-get_otx_by_account_next pk c n = Still-bind Still-external (λ _. Still-read _)

  pub Still-get_otx_by_account_previous :
      (pk : String) (c : ℤ) (n : ℕ) → Still (get_otx_by_account_previous env pk c n)
  unfolding get_otx_by_account_previous
  Still-get_otx_by_account_previous pk c n = Still-bind Still-external (λ _. Still-read _)

  pub Still-get_failed_otx : Still (get_failed_otx env)
  unfolding get_failed_otx
  Still-get_failed_otx = Still-bind Still-external (λ _. Still-read _)

  pub Still-send : (e : Event) → Still (send env e)
  unfolding send
  Still-send e = Still-bind Still-external (λ _. Still-add_event e)

  Hoare-begin_at :
      {E : Db → Type 0} {P Q : Assert} (t : ℕ)
      → ((c w : Db) → P c w → Q c c)
      → Hoare E P (begin_at env t) (λ _. Q)
  unfolding begin_at open_tx
  Hoare-begin_at t q = record { at = λ w p. q w.committed w.working p }

  -- `begin` gives the transaction the committed database.
  pub Hoare-begin :
      {E : Db → Type 0} {P Q : Assert}
      → ((c w : Db) → P c w → E c)
      → ((c w : Db) → P c w → Q c c)
      → Hoare E P (begin env) (λ _. Q)
  unfolding begin
  Hoare-begin e q = still e Still-external ⨾ λ _. still e Still-moment ⨾ λ t. Hoare-begin_at t q

  -- `commit` publishes the view, or fails and publishes nothing.
  pub Hoare-commit :
      {E : Db → Type 0} {P Q : Assert}
      → ((c w : Db) → P c w → E c)
      → ((c w : Db) → P c w → Q w w)
      → Hoare E P (commit env) (λ _. Q)
  unfolding commit
  Hoare-commit e q = still e Still-external ⨾ λ _. Hoare-publish_working q
