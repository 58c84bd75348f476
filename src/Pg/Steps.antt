-- ===== src/Pg/Steps.antt =====
-- What the methods of the store, of the queue and of the publisher do when no call fails.
use eth_custodial.Prelude.{
  ℕ, suc, ◌+◌, ◌<◌, ◌≡◌, refl, ◌∙◌, arith, String, true, false, some, List, [], ◌∷◌, ◌++◌, ltb,
}
use eth_custodial.Jobs.{Event, Job}
use eth_custodial.Store.Types.{DispatchStatus, is_status_type, is_otx_type}
use eth_custodial.Store.Tables.{KeyRow, NewOtx}
use eth_custodial.Store.Results.{Result, ok}
use eth_custodial.Store.Queries
use eth_custodial.Store.Queries.{
  int_max, keys_of, load_key, key_id, next_nonce_of, set_next_nonce, otx_row, has_otx, has_dispatch,
  has_dispatch_id, set_status, add_jobs,
}
use eth_custodial.Store.Statuses.{update_tracked}
use eth_custodial.World.{World, M, ◌>>=◌, ignore_error, pure, lift}
use eth_custodial.Runtime.{Env}
use eth_custodial.Pg.{
  external, moment, begin_at, open_tx, begin, commit, publish_working, update_dispatch_tx_status,
  read, write, write_returning, send, add_event, insert, now_committed, load_private_key,
  acquire_nonce, insert_otx, next_otx_id, insert_dispatch_tx, next_dispatch_id, insert_many_tx,
}

-- A bind whose first part returns.
pub step :
    {A B : Type 0} (m : M A) (f : A → M B) {a : A} {w w' : World}
    → m w ≡ (ok a, w')
    → (m >>= f) w ≡ f a w'
unfolding ◌>>=◌
step m f h = rw h refl

pub lift_step : {A : Type 0} {r : Result A} {a : A} (w : World) → r ≡ ok a → lift r w ≡ (ok a, w)
unfolding lift
lift_step w h = rw h refl

-- No call fails.
module _ (env : Env) (calm : (t : ℕ) → env.fails t ≡ false) where
  pub external_step : (w : World) → external env w ≡ (ok tt, record w { clock = suc w.clock })
  unfolding external
  external_step w = rw (calm w.clock) refl

  pub update_step :
      (i : ℕ) (s : DispatchStatus) (w : World)
      → has_dispatch i w.working.dispatch ≡ true
      → is_status_type s ≡ true
      → update_dispatch_tx_status env i s w ≡ (
        ok tt,
        record w {
          clock = suc w.clock;
          working = record w.working { dispatch = set_status i w.began_at s w.working.dispatch };
        },
      )
  unfolding update_dispatch_tx_status write
  update_step i s w h t =
      step _ _ (external_step w) ∙ rw (update_tracked w.began_at i s w.working h t) refl

  pub send_step :
      (e : Event) (w : World)
      → ignore_error (send env e) w
        ≡ (ok tt, record w { clock = suc w.clock; events = w.events ++ e ∷ [] })
  unfolding ignore_error send add_event
  send_step e w = rw (step _ _ (external_step w)) refl

  pub commit_step :
      (w : World) → commit env w ≡ (ok tt, record w { clock = suc w.clock; committed = w.working })
  unfolding commit publish_working
  commit_step w = step _ _ (external_step w)

  pub begin_step :
      (w : World)
      → begin env w ≡ (
        ok tt,
        record w { clock = suc w.clock; working = w.committed; began_at = env.now (suc w.clock) },
      )
  unfolding begin moment begin_at open_tx ◌>>=◌
  begin_step w = rw (external_step w) refl

  pub insert_step :
      (j : Job) (w : World)
      → insert env j w ≡ (
        ok tt,
        record w {
          clock = suc w.clock;
          committed = add_jobs (j ∷ []) w.committed;
          working = add_jobs (j ∷ []) w.working;
        },
      )
  unfolding insert now_committed
  insert_step j w = step _ _ (external_step w)

below : {n m : ℕ} → n < m → ltb n m ≡ true
below h = ground arith

not_above : {n m : ℕ} → n < m → ltb m n ≡ false
not_above h = ground arith

-- The steps of a worker that signs: what each statement needs of the view.
module _ (env : Env) (calm : (t : ℕ) → env.fails t ≡ false) where
  pub load_private_key_step :
      (pk : String) (k : KeyRow) (w : World)
      → keys_of pk w.working.keystore ≡ k ∷ []
      → load_private_key env pk w ≡ (
        ok (record { public = k.public_key; private = k.private_key }),
        record w { clock = suc w.clock },
      )
  unfolding load_private_key read load_key
  load_private_key_step pk k w h = step _ _ (external_step env calm w) ∙ rw h refl

  pub acquire_nonce_step :
      (pk : String) (k : KeyRow) (n : ℕ) (w : World)
      → keys_of pk w.working.keystore ≡ k ∷ []
      → next_nonce_of k.id w.working.noncestore ≡ some n
      → n < int_max
      → acquire_nonce env pk w ≡ (
        ok n,
        record w {
          clock = suc w.clock;
          working = record w.working {
            noncestore = set_next_nonce k.id (n + 1) w.working.noncestore;
          };
        },
      )
  unfolding acquire_nonce write_returning Queries.acquire_nonce key_id
  acquire_nonce_step pk k n w h e l = step _ _ (external_step env calm w) ∙ rw (h, e, below l) refl

  pub insert_otx_step :
      (o : NewOtx) (k : KeyRow) (w : World)
      → keys_of o.signer_account w.working.keystore ≡ k ∷ []
      → o.nonce < int_max
      → has_otx w.otx_seq w.working.otx ≡ false
      → is_otx_type o.otx_type ≡ true
      → insert_otx env o w ≡ (
        ok w.otx_seq,
        record w {
          clock = suc w.clock;
          otx_seq = suc w.otx_seq;
          working = record w.working { otx = otx_row w.otx_seq w.began_at k.id o ∷ w.working.otx };
        },
      )
  unfolding insert_otx write Queries.insert_otx key_id next_otx_id pure
  insert_otx_step o k w h l f t =
      step _ _ (external_step env calm w)
      ∙ step _ _ refl
      ∙ step _ _ (rw (h, not_above l, f, t) refl)

  pub insert_dispatch_tx_step :
      (i : ℕ) (s : DispatchStatus) (w : World)
      → has_dispatch_id w.dispatch_seq w.working.dispatch ≡ false
      → has_otx i w.working.otx ≡ true
      → is_status_type s ≡ true
      → insert_dispatch_tx env i s w ≡ (
        ok tt,
        record w {
          clock = suc w.clock;
          dispatch_seq = suc w.dispatch_seq;
          working = record w.working {
            dispatch =
                record { id = w.dispatch_seq; otx_id = i; status = s; updated_at = w.began_at }
                ∷ w.working.dispatch;
          };
        },
      )
  unfolding insert_dispatch_tx write Queries.insert_dispatch next_dispatch_id
  insert_dispatch_tx_step i s w f h t =
      step _ _ (external_step env calm w) ∙ step _ _ refl ∙ rw (f, h, t) refl

  pub insert_many_tx_step :
      (js : List Job) (w : World)
      → insert_many_tx env js w
        ≡ (ok tt, record w { clock = suc w.clock; working = add_jobs js w.working })
  unfolding insert_many_tx write
  insert_many_tx_step js w = step _ _ (external_step env calm w)
