-- ===== src/Pg/Bootstrap.antt =====
-- `Bootstrap` of internal/store/pg.go: the master key at the start of the service. The key pair
-- that `keypair.GenerateKeyPair` draws is an argument.
pub mod Master
use eth_custodial.Prelude.{ℕ, String, Bool, true, false, Option, none, some, List, [], ◌∷◌}
use eth_custodial.Jobs.{Key}
use eth_custodial.Store.Results.{Result, ok, err, or_error, no_rows, bad_key_generation}
use eth_custodial.Store.Queries
use eth_custodial.World.{World, M, pure, raise, lift, ignore_error, attempt, ◌>>=◌, ◌>>◌}
use eth_custodial.Runtime.{Env}
use eth_custodial.Pg

module _ (env : Env) (generated : Option Key) where
  unfoldable pub insert_master_key : Key → M Unit
  insert_master_key key = do
    Pg.external env
    id ← Pg.next_keystore_id
    Pg.write (λ w d. Queries.bootstrap_master_key id key d)

  unfoldable pub when_missing : Result Key → M Unit
  when_missing (ok k) = pure tt
  when_missing (err no_rows) = do
    key ← lift (or_error generated bad_key_generation)
    insert_master_key key
  when_missing (err e) = raise e

  -- `bootstrapMasterSigner`
  unfoldable pub bootstrap_master_signer : M Unit
  bootstrap_master_signer = do found ← attempt (Pg.load_master_signer_key env); when_missing found

  -- The deferred function sees the error of `Begin` only, so it commits; its own error is dropped.
  -- Postgres rolls a transaction back at its commit when a statement of it has failed.
  abbrev pub end_bootstrap : Result Unit → M Unit
  end_bootstrap (ok a) = ignore_error (Pg.commit env)
  end_bootstrap (err e) = do ignore_error (Pg.external env); raise e

  -- `Bootstrap`
  unfoldable pub bootstrap : M Unit
  bootstrap = do Pg.begin env; done ← attempt bootstrap_master_signer; end_bootstrap done
