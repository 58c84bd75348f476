-- ===== src/Cmd/Service/Load.antt =====
-- The functions of cmd/service/init.go, in the order in which Go evaluates their operands.
use eth_custodial.Prelude.{zero, suc, ◌*◌, String, some, if◌then◌else◌, str_eq}
use eth_custodial.Prelude.Int.{ℤ, pos, negsuc, int_eq}
use eth_custodial.Cmd.Service.New.{
  new_jet_stream, new_pg_store, make_rpc_gas_oracle, new_sub, new_worker_container,
}
use eth_custodial.Cmd.Service.State.{
  ◌>>=◌, ◌>>◌, Resource, Handle, WorkerContainer, Subscriber, ApiServer, Site, Boot, pure, exit,
  must, build, assign, loaded, outside,
}

-- `ko.Int("workers.max")`, or twice the processors where that is not above zero
abbrev pub max_workers_of : Site → ℤ
max_workers_of site = elim site.conf.workers_max [
  | pos zero ↦ pos (site.num_cpu * 2)
  | negsuc n ↦ pos (site.num_cpu * 2)
  | pos (suc n) ↦ pos (suc n)
]

module _ (site : Site) where
  open site use {conf}

  unfoldable pub load_jet_stream : Boot Handle
  load_jet_stream =
      loaded (λ p. p.js)
        (do
          endpoint ← must conf.jetstream_endpoint
          h ← new_jet_stream site
          assign (λ p. record p { js = some h })
          pure h)

  -- `Bootstrap` follows, and its error ends the process.
  unfoldable pub load_store : Boot Handle
  load_store =
      loaded (λ p. p.pg_store)
        (do
          dsn ← must conf.postgres_dsn
          h ← new_pg_store site
          assign (λ p. record p { pg_store = some h })
          outside site
          pure h)

  unfoldable pub load_chain_provider : Boot Handle
  load_chain_provider =
      loaded (λ p. p.chain_provider)
        (do
          endpoint ← must conf.chain_rpc_endpoint
          chain_id ← must conf.chain_id
          consumer ← must conf.divvi_consumer
          h ← build Resource.chain_provider
          assign (λ p. record p { chain_provider = some h })
          pure h)

  -- A static oracle, or one that asks the chain at once.
  abbrev pub new_gas_oracle : String → Boot Handle
  new_gas_oracle oracle_type =
      if str_eq oracle_type "static"
      then build Resource.gas_oracle
      else if str_eq oracle_type "rpc"
      then (do provider ← load_chain_provider; make_rpc_gas_oracle site)
      else exit

  unfoldable pub load_gas_oracle : Boot Handle
  load_gas_oracle =
      loaded (λ p. p.gas_oracle)
        (do
          oracle_type ← must conf.oracle_type
          h ← new_gas_oracle oracle_type
          assign (λ p. record p { gas_oracle = some h })
          pure h)

  unfoldable pub load_registry : Boot Handle
  load_registry =
      loaded (λ p. p.registry)
        (do
          provider ← load_chain_provider
          address ← must conf.ge_registry
          outside site
          h ← build Resource.registry
          assign (λ p. record p { registry = some h })
          pure h)

  -- The error of `CreateStream` is not looked at.
  unfoldable pub load_pub : Boot Handle
  load_pub =
      loaded (λ p. p.js_pub)
        (do
          duration ← must conf.persist_duration_hrs
          js ← load_jet_stream
          h ← build Resource.publisher
          assign (λ p. record p { js_pub = some h })
          pure h)

  unfoldable pub load_ens_client : Boot Handle
  load_ens_client =
      loaded (λ p. p.ens_client)
        (do
          key ← must conf.ens_api_key
          endpoint ← must conf.ens_endpoint
          h ← build Resource.ens_client
          assign (λ p. record p { ens_client = some h })
          pure h)

  unfoldable pub init_sub : Boot Subscriber
  init_sub =
      loaded (λ p. p.js_sub)
        (do
          provider ← load_chain_provider
          store ← load_store
          js ← load_jet_stream
          consumer ← must conf.jetstream_id
          publisher ← load_pub
          chain_id ← must conf.chain_id
          s ← new_sub site (record {
            provider = provider;
            store = store;
            js = js;
            consumer_id = consumer;
            pub_client = publisher;
            activate_divvi_submissions = int_eq chain_id site.celo_mainnet;
          })
          assign (λ p. record p { js_sub = some s })
          pure s)

  -- The variable that `workerContainer, err :=` declares is the function's own: the package's is not assigned.
  unfoldable pub init_worker : Boot WorkerContainer
  init_worker =
      loaded (λ p. p.worker_container)
        (do
          registry ← load_registry
          oracle ← load_gas_oracle
          store ← load_store
          publisher ← load_pub
          provider ← load_chain_provider
          ens ← load_ens_client
          new_worker_container site (record {
            registry = registry;
            max_workers = max_workers_of site;
            gas_oracle = oracle;
            store = store;
            pub_client = publisher;
            chain_provider = provider;
            ens_client = ens;
            prod = conf.workers_prod;
          }))

  unfoldable pub init_api : Boot ApiServer
  init_api =
      loaded (λ p. p.api_server)
        (do
          pem ← must conf.api_private_key
          keys ← must (site.parse_signing_key pem)
          worker ← init_worker
          address ← must conf.api_address
          cors ← must conf.api_cors
          registry ← load_registry
          oracle ← load_gas_oracle
          store ← load_store
          provider ← load_chain_provider
          h ← build Resource.api_server
          pure (record {
            id = h;
            prod = conf.api_prod;
            enable_metrics = conf.service_metrics;
            enable_docs = conf.api_docs;
            jrpc = conf.api_jrpc;
            listen_address = address;
            cors = cors;
            registry = registry;
            signing_key = keys.0;
            verifying_key = keys.1;
            gas_oracle = oracle;
            store = store;
            chain_provider = provider;
            queue_client = worker.id;
            banned_tokens = conf.banned_tokens;
          }))
