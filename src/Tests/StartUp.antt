-- ===== src/Tests/StartUp.antt =====
-- A start of the command in the mode standalone.
use eth_custodial.Prelude.{◌≡◌, refl, true, false, some, [], ◌∷◌}
use eth_custodial.Prelude.Int.{pos}
use mathlib.Core.List.{reverse}
use eth_custodial.Cmd.Service.State.{
  Config, Site, Process, pure, exit, must, ◌>>=◌, build, assign, loaded, outside,
}
use eth_custodial.Cmd.Service.New.{
  new_jet_stream, new_pg_store, make_rpc_gas_oracle, new_sub, add_workers, setup_workers,
  new_worker_container,
}
use eth_custodial.Cmd.Service.Load.{
  load_jet_stream, load_store, load_chain_provider, load_gas_oracle, load_registry, load_pub,
  load_ens_client, init_sub, init_worker, init_api,
}
use eth_custodial.Cmd.Service.{Components, standalone, init_components, main, new_process}
use eth_custodial.Cmd.Service.StartUp.{builds, Runs, start_up_lem}

abbrev sample_config : Config
sample_config = record {
  service_mode = some "standalone";
  jetstream_endpoint = some "nats";
  jetstream_id = some "custodial";
  persist_duration_hrs = some (pos 48);
  postgres_dsn = some "postgres";
  chain_rpc_endpoint = some "http";
  chain_id = some (pos 42220);
  divvi_consumer = some "0xd";
  ge_registry = some "0xe";
  oracle_type = some "rpc";
  ens_api_key = some "key";
  ens_endpoint = some "http";
  api_private_key = some "pem";
  api_address = some "5003";
  api_cors = some ("*" ∷ []);
  workers_max = pos 0;
  workers_prod = true;
  api_prod = true;
  api_docs = false;
  api_jrpc = true;
  service_metrics = true;
  banned_tokens = [];
}

-- A queue that takes every worker.
abbrev pub sample_site : Site
sample_site = record {
  conf = sample_config;
  fails = λ t. false;
  num_cpu = 4;
  celo_mainnet = pos 42220;
  add_worker_safely = λ ks k. some (k ∷ ks);
  parse_signing_key = λ s. some ("private", "public");
}

abbrev Started : Type 0
Started = (c : Components) × (p : Process) × (main sample_site new_process ≡ some (c, p))

started : Started
unfolding main init_components init_worker init_sub init_api load_registry load_gas_oracle
    load_store load_pub load_jet_stream load_chain_provider load_ens_client new_jet_stream
    new_pg_store make_rpc_gas_oracle new_sub new_worker_container setup_workers add_workers loaded
    must outside build assign pure exit ◌>>=◌
started = (_, _, refl)

start_up_lem_example : (reverse started.1.made ≡ builds standalone) × Runs standalone started.0
start_up_lem_example =
    start_up_lem sample_site "standalone" standalone started.0 started.1 refl refl started.2
