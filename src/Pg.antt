-- ===== src/Pg.antt =====
-- The methods of `Pg` (internal/store), the transactions and the queue that they run in, and
-- `Pub.Send` (internal/pub): queries as actions on the shared state, each of which may fail.
pub mod Inert
pub mod Rules
pub mod Safe
pub mod Steps
pub mod Bootstrap
use eth_custodial.Prelude.{ℕ, suc, String, Bool, List, [], ◌∷◌, ◌++◌, leb, if◌then◌else◌}
use eth_custodial.Prelude.Int.{ℤ, pos, negsuc}
use eth_custodial.Jobs.{Key, Job, Event}
use eth_custodial.Store.Types.{DispatchStatus}
use eth_custodial.Store.Tables.{Db, Otx, NewOtx}
use eth_custodial.Store.Results.{Result, ok, err, unavailable, out_of_range}
use eth_custodial.Store.Queries
use eth_custodial.Store.Queries.{add_jobs, int_max}
use eth_custodial.Store.Selects
use eth_custodial.Store.Unlocks
use eth_custodial.World.{World, M, pure, ◌>>=◌, ◌>>◌}
use eth_custodial.Runtime.{Env}

-- The answer of a query on the transaction's view, and the view that a statement leaves.
unfoldable pub read : {A : Type 0} → (World → Db → Result A) → M A
read f w = (f w w.working, w)

-- The answer of a query outside of a transaction.
unfoldable pub read_committed : {A : Type 0} → (Db → Result A) → M A
read_committed f w = (f w.committed, w)

abbrev replace_working : Result Db → World → Result Unit × World
replace_working (ok d) w = (ok tt, record w { working = d })
replace_working (err e) w = (err e, w)

unfoldable pub write : (World → Db → Result Db) → M Unit
write f w = replace_working (f w w.working) w

abbrev replace_returning : {A : Type 0} → Result (A × Db) → World → Result A × World
replace_returning (ok (a, d)) w = (ok a, record w { working = d })
replace_returning (err e) w = (err e, w)

unfoldable pub write_returning : {A : Type 0} → (Db → Result (A × Db)) → M A
write_returning f w = replace_returning (f w.working) w

-- `nextval` of the three identity columns.
unfoldable pub next_keystore_id : M ℕ
next_keystore_id w = (ok w.keystore_seq, record w { keystore_seq = suc w.keystore_seq })

unfoldable pub next_otx_id : M ℕ
next_otx_id w = (ok w.otx_seq, record w { otx_seq = suc w.otx_seq })

unfoldable pub next_dispatch_id : M ℕ
next_dispatch_id w = (ok w.dispatch_seq, record w { dispatch_seq = suc w.dispatch_seq })

unfoldable pub open_tx : ℕ → M Unit
open_tx now w = (ok tt, record w { working = w.committed; began_at = now })

unfoldable pub publish_working : M Unit
publish_working w = (ok tt, record w { committed = w.working })

unfoldable pub add_event : Event → M Unit
add_event e w = (ok tt, record w { events = w.events ++ e ∷ [] })

unfoldable pub now_committed : Job → M Unit
now_committed j w = (
  ok tt,
  record w { committed = add_jobs (j ∷ []) w.committed; working = add_jobs (j ∷ []) w.working },
)

-- A page from a cursor, which is an INT. Ids are positive: to a page, a negative cursor is 0.
abbrev pub page_at : ℤ → (ℕ → List Otx) → Result (List Otx)
page_at (pos n) page = if leb n int_max then ok (page n) else err out_of_range
page_at (negsuc n) page = if leb n int_max then ok (page 0) else err out_of_range

module _ (env : Env) where
  -- One call that leaves the process.
  unfoldable pub external : M Unit
  external w =
      let w' = record w { clock = suc w.clock } in
      if env.fails w.clock then (err (unavailable w.clock), w') else (ok tt, w')

  unfoldable pub moment : M ℕ
  moment w = (ok w.clock, w)

  unfoldable pub begin_at : ℕ → M Unit
  begin_at t = open_tx (env.now t)

  -- `Pool().Begin`
  unfoldable pub begin : M Unit
  begin = do external; t ← moment; begin_at t

  -- `tx.Commit`
  unfoldable pub commit : M Unit
  commit = do external; publish_working

  -- `Pool().Query` and `Pool().QueryRow`
  unfoldable pub query : {A : Type 0} → (Db → Result A) → M A
  query f = do external; read_committed f

  unfoldable pub insert_key_pair : Key → M Unit
  insert_key_pair key = do
    external
    id ← next_keystore_id
    write (λ w d. Queries.insert_keypair id key d)

  unfoldable pub activate_key_pair : String → M Unit
  activate_key_pair pk = do external; write (λ w d. ok (Queries.activate_keypair pk d))

  unfoldable pub load_private_key : String → M Key
  load_private_key pk = do external; read (λ w d. Queries.load_key pk d)

  unfoldable pub check_keypair : String → M Bool
  check_keypair pk = do external; read (λ w d. ok (Queries.check_keypair pk d))

  unfoldable pub load_master_signer_key : M Key
  load_master_signer_key = do external; read (λ w d. Queries.load_master_key d)

  unfoldable pub peek_nonce : String → M ℕ
  peek_nonce pk = do external; read (λ w d. Queries.peek_nonce pk d)

  unfoldable pub acquire_nonce : String → M ℕ
  acquire_nonce pk = do external; write_returning (Queries.acquire_nonce pk)

  unfoldable pub insert_otx : NewOtx → M ℕ
  insert_otx o = do
    external
    id ← next_otx_id
    write (λ w d. Queries.insert_otx id w.began_at o d)
    pure id

  unfoldable pub get_otx_by_tx_hash : String → M Otx
  get_otx_by_tx_hash hash = do
    external
    read (λ w d. Selects.get_otx_by_tx_hash (env.int_text) hash d)

  unfoldable pub get_otx_by_tracking_id : String → M (List Otx)
  get_otx_by_tracking_id id = do external; read (λ w d. ok (Selects.get_otx_by_tracking_id id d))

  unfoldable pub get_otx_by_account : String → ℕ → M (List Otx)
  get_otx_by_account pk limit = do
    external
    read (λ w d. ok (Selects.get_otx_by_account pk limit d))

  unfoldable pub get_otx_by_account_next : String → ℤ → ℕ → M (List Otx)
  get_otx_by_account_next pk cursor limit = do
    external
    read (λ w d. page_at cursor (λ c. Selects.get_otx_by_account_next pk c limit d))

  unfoldable pub get_otx_by_account_previous : String → ℤ → ℕ → M (List Otx)
  get_otx_by_account_previous pk cursor limit = do
    external
    read (λ w d. page_at cursor (λ c. Selects.get_otx_by_account_previous pk c limit d))

  unfoldable pub get_failed_otx : M (List Otx)
  get_failed_otx = do external; read (λ w d. ok (Selects.get_failed_otx d))

  unfoldable pub insert_dispatch_tx : ℕ → DispatchStatus → M Unit
  insert_dispatch_tx otx_id s = do
    external
    id ← next_dispatch_id
    write (λ w d. Queries.insert_dispatch id w.began_at otx_id s d)

  unfoldable pub update_dispatch_tx_status : ℕ → DispatchStatus → M Unit
  update_dispatch_tx_status otx_id s = do
    external
    write (λ w d. Queries.update_dispatch_status w.began_at otx_id s d)

  -- `tx.Exec` of the unlocker's two statements
  unfoldable pub set_otx_tx : ℕ → String → String → M Unit
  set_otx_tx id raw hash = do external; write (λ w d. ok (Unlocks.set_otx_tx id raw hash d))

  unfoldable pub set_otx_hash : ℕ → String → M Unit
  set_otx_hash id hash = do external; write (λ w d. ok (Unlocks.set_otx_hash id hash d))

  -- River's `InsertManyTx` and `InsertTx`: rows of the open transaction.
  unfoldable pub insert_many_tx : List Job → M Unit
  insert_many_tx js = do external; write (λ w d. ok (add_jobs js d))

  -- River's `Insert`: a transaction of its own, seen by all at once.
  unfoldable pub insert : Job → M Unit
  insert j = do external; now_committed j

  -- `Pub.Send`; its callers do not look at the error.
  unfoldable pub send : Event → M Unit
  send e = do external; add_event e
