-- ===== src/Pg/Bootstrap/Master.antt =====
-- The master key after `Bootstrap` of internal/store/pg.go.
use eth_custodial.Prelude.{
  ℕ, suc, ◌≡◌, refl, ◌∙◌, ap, arith, Bool, true, false, Option, none, some, List, [], ◌∷◌, ◌==◌,
  if◌then◌else◌,
}
use eth_custodial.Jobs.{Key}
use eth_custodial.Store.Tables.{Db, KeyRow}
use eth_custodial.Store.Results.{Result, ok, err, or_error, no_rows, bad_key_generation}
use eth_custodial.Store.Queries
use eth_custodial.Store.Queries.{has_key, next_nonce_of, with_key, scan_key}
use eth_custodial.World.{World, M, pure, lift, ignore_error, attempt, ◌>>=◌}
use eth_custodial.Runtime.{Env}
use eth_custodial.Pg
use eth_custodial.Pg.Steps.{step, external_step, commit_step, begin_step}
use eth_custodial.Pg.Bootstrap.{insert_master_key, when_missing, bootstrap_master_signer, bootstrap}

module _ (env : Env) (calm : (t : ℕ) → env.fails t ≡ false) (generated : Option Key) where
  load_step :
      (w : World)
      → attempt (Pg.load_master_signer_key env) w
        ≡ (ok (Queries.load_master_key w.working), record w { clock = suc w.clock })
  unfolding attempt Pg.load_master_signer_key Pg.read
  load_step w = rw (step _ _ (external_step env calm w)) refl

  -- The world in which the master key has been looked for.
  abbrev looked : World → World
  looked w = record w {
    clock = suc (suc w.clock);
    working = w.committed;
    began_at = env.now (suc w.clock);
  }

  attempt_step :
      {A : Type 0} (m : M A) {r : Result A} {w w' : World}
      → m w ≡ (r, w')
      → attempt m w ≡ (ok r, w')
  unfolding attempt
  attempt_step m h = rw h refl

  commit_ignored :
      (w : World)
      → ignore_error (Pg.commit env) w
        ≡ (ok tt, record w { clock = suc w.clock; committed = w.working })
  unfolding ignore_error
  commit_ignored w = rw (commit_step env calm w) refl

  searched :
      (w : World) (r : Result Key)
      → Queries.load_master_key w.committed ≡ r
      → bootstrap_master_signer env generated (record w {
        clock = suc w.clock;
        working = w.committed;
        began_at = env.now (suc w.clock);
      })
        ≡ when_missing env generated r (looked w)
  unfolding bootstrap_master_signer
  searched w r q = step _ _ (load_step _) ∙ ap (λ x. when_missing env generated x (looked w)) q

  -- Where a master key is stored, `Bootstrap` succeeds, draws no id and changes nothing.
  kept :
      (key : Key) (w : World)
      → Queries.load_master_key w.committed ≡ ok key
      → bootstrap env generated w ≡ (ok tt, record (looked w) { clock = suc (suc (suc w.clock)) })
  unfolding bootstrap when_missing pure
  kept key w q =
      step _ _ (begin_step env calm w)
      ∙ step _ _ (attempt_step _ (searched w (ok key) q))
      ∙ commit_ignored (looked w)

  insert_step :
      (key : Key) (w : World) (d : Db)
      → Queries.bootstrap_master_key w.keystore_seq key w.working ≡ ok d
      → insert_master_key env generated key w
        ≡ (ok tt, record w { clock = suc w.clock; keystore_seq = suc w.keystore_seq; working = d })
  unfolding insert_master_key Pg.next_keystore_id Pg.write ◌>>=◌
  insert_step key w d q = rw (external_step env calm w, q) refl

  made :
      (key : Key) (w : World) (d : Db)
      → generated ≡ some key
      → Queries.load_master_key w.committed ≡ err no_rows
      → Queries.bootstrap_master_key w.keystore_seq key w.committed ≡ ok d
      → ((bootstrap env generated w).0 ≡ ok tt) × ((bootstrap env generated w).1.committed ≡ d)
  unfolding bootstrap when_missing lift
  made key w d g q b =
      let run =
        step _ _ (begin_step env calm w)
        ∙ step _ _ (
            attempt_step _ (
              searched w (err no_rows) q
              ∙ step _ _ (ap (λ x. lift (or_error x bad_key_generation) (looked w)) g)
              ∙ insert_step key (looked w) d b))
        ∙ commit_ignored _ in
      (ap (λ r. r.0) run, ap (λ r. r.1.committed) run)

-- No key has the id.
fresh_id : (i : ℕ) (ks : List KeyRow) → has_key i ks ≡ false → Queries.keys_with_id i ks ≡ []
unfolding has_key Queries.keys_with_id
fresh_id i [] h = refl
fresh_id i (k ∷ ks) h = ground (arith, fresh_id i ks)

master_after :
    (id : ℕ) (key : Key) (d : Db)
    → d.master_key ≡ []
    → has_key id d.keystore ≡ false
    → next_nonce_of id d.noncestore ≡ none
    → (d' : Db) × (Queries.bootstrap_master_key id key d ≡ ok d')
      × (Queries.load_master_key d' ≡ ok key)
unfolding Queries.bootstrap_master_key Queries.load_master_key Queries.keys_with_id Queries.add_key
master_after id key d m k n = (
  record (with_key id key true d) { master_key = id ∷ d.master_key },
  rw (m, k, n) refl,
  own_row (id == id) (ground arith) (fresh_id id d.keystore k),
)
  where
    own_row :
        (b : Bool) {rest : List KeyRow}
        → b ≡ true
        → rest ≡ []
        → scan_key (
            if b
            then record {
              id = id;
              public_key = key.public;
              private_key = key.private;
              active = true;
            }
              ∷ rest
            else rest)
          ≡ ok key
    own_row b e q = rw (e, q) refl

missing : (d : Db) → d.master_key ≡ [] → Queries.load_master_key d ≡ err no_rows
unfolding Queries.load_master_key
missing d m = rw m refl

-- Where no master key is stored and the next id is fresh, `Bootstrap` succeeds, if no call fails
-- and a key pair is generated, and that pair is then the master key.
pub bootstrap_first :
    (env : Env) (key : Key) (w : World)
    → ((t : ℕ) → env.fails t ≡ false)
    → w.committed.master_key ≡ []
    → has_key w.keystore_seq w.committed.keystore ≡ false
    → next_nonce_of w.keystore_seq w.committed.noncestore ≡ none
    → ((bootstrap env (some key) w).0 ≡ ok tt)
      × (Queries.load_master_key (bootstrap env (some key) w).1.committed ≡ ok key)
bootstrap_first env key w calm m k n =
    let (d, b, l) = master_after w.keystore_seq key w.committed m k n in
    let (result, after) = made env calm (some key) key w d refl (missing w.committed m) b in
    (result, ap Queries.load_master_key after ∙ l)

-- Where a master key is stored, `Bootstrap` succeeds, if no call fails, and neither changes the
-- database nor draws an id, whatever key pair would be generated.
pub bootstrap_again :
    (env : Env) (generated : Option Key) (key : Key) (w : World)
    → ((t : ℕ) → env.fails t ≡ false)
    → Queries.load_master_key w.committed ≡ ok key
    → ((bootstrap env generated w).0 ≡ ok tt)
      × ((bootstrap env generated w).1.committed ≡ w.committed)
      × ((bootstrap env generated w).1.keystore_seq ≡ w.keystore_seq)
bootstrap_again env generated key w calm q = rw (kept env calm generated key w q) (refl, refl, refl)
