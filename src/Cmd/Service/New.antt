-- ===== src/Cmd/Service/New.antt =====
-- The constructors that cmd/service/init.go calls: NewJetStream (internal/jetstream), NewPgStore
-- and Bootstrap (internal/store/pg.go), NewRPCGasOracle (internal/gas/rpc.go), NewPub
-- (internal/pub/pub.go), NewSub (internal/sub/sub.go), worker.New (internal/worker/worker.go) and
-- api.New (internal/api/api.go).
use eth_custodial.Prelude.{String, Bool, true, List, [], ◌∷◌}
use eth_custodial.Prelude.Int.{ℤ}
use eth_custodial.Jobs.{dispatch_health_check, unlocker}
use eth_custodial.Cmd.Service.State.{
  ◌>>=◌, ◌>>◌, Resource, Handle, PeriodicJob, WorkerContainer, Subscriber, Site, Boot, pure, must,
  build, outside,
}

-- The kinds of the workers of `setupWorkers`, in its order.
abbrev pub worker_kinds : List String
worker_kinds =
    "TOKEN_TRANSFER" ∷ "TOKEN_SWEEP" ∷ "ACCOUNT_CREATE" ∷ "DISPATCH" ∷ "DISPATCH_HEALTHCHECK"
    ∷ "RETRIER" ∷ "POOL_SWAP" ∷ "POOL_DEPOSIT" ∷ "GAS_REFILL" ∷ "GENERIC_SIGN"
    ∷ "STANDARD_TOKEN_DEPLOY" ∷ "DEMURRAGE_TOKEN_DEPLOY" ∷ "POOL_DEPLOY" ∷ "UNLOCKER" ∷ []

-- `setupPeriodicJobs`: every 2 and every 5 minutes, and at the start.
abbrev pub setup_periodic_jobs : List PeriodicJob
setup_periodic_jobs =
    record { interval = 120; args = dispatch_health_check; run_on_start = true }
    ∷ record { interval = 300; args = unlocker; run_on_start = true }
    ∷ []

-- What `WorkerOpts` and `APIOpts` carry of the process.
pub record WorkerOpts : Type 0 where
  pub registry : Handle
  pub max_workers : ℤ
  pub gas_oracle : Handle
  pub store : Handle
  pub pub_client : Handle
  pub chain_provider : Handle
  pub ens_client : Handle
  pub prod : Bool

pub record SubOpts : Type 0 where
  pub provider : Handle
  pub store : Handle
  pub js : Handle
  pub consumer_id : String
  pub pub_client : Handle
  pub activate_divvi_submissions : Bool

module _ (site : Site) where
  -- Connect to NATS, and make the JetStream context.
  unfoldable pub new_jet_stream : Boot Handle
  new_jet_stream = do outside site; outside site; build Resource.jet_stream

  -- The address is parsed, the pool opened, the queries are read, the migrations run.
  unfoldable pub new_pg_store : Boot Handle
  new_pg_store = do outside site; outside site; outside site; outside site; build Resource.pg_store

  -- The first settings are asked for at once.
  unfoldable pub make_rpc_gas_oracle : Boot Handle
  make_rpc_gas_oracle = do outside site; build Resource.gas_oracle

  -- The stream, the consumer and its messages.
  unfoldable pub new_sub : SubOpts → Boot Subscriber
  new_sub o = do
    outside site
    outside site
    outside site
    h ← build Resource.subscriber
    pure (record {
      id = h;
      provider = o.provider;
      store = o.store;
      js = o.js;
      consumer_id = o.consumer_id;
      pub_client = o.pub_client;
      activate_divvi_submissions = o.activate_divvi_submissions;
    })

  -- `AddWorkerSafely` for each kind.
  unfoldable pub add_workers : List String → List String → Boot (List String)
  add_workers [] registered = pure registered
  add_workers (k ∷ ks) registered = do
    registered' ← must (site.add_worker_safely registered k)
    add_workers ks registered'

  -- `setupWorkers`
  unfoldable pub setup_workers : Boot (List String)
  unfolding add_workers
  setup_workers = add_workers worker_kinds []

  -- The migrator, its migrations, the workers, and the client of the queue.
  unfoldable pub new_worker_container : WorkerOpts → Boot WorkerContainer
  new_worker_container o = do
    outside site
    outside site
    kinds ← setup_workers
    outside site
    h ← build Resource.worker_container
    pure (record {
      id = h;
      registry = o.registry;
      max_workers = o.max_workers;
      gas_oracle = o.gas_oracle;
      store = o.store;
      pub_client = o.pub_client;
      chain_provider = o.chain_provider;
      ens_client = o.ens_client;
      prod = o.prod;
      workers = kinds;
      periodic_jobs = setup_periodic_jobs;
    })
