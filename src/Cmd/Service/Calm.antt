-- ===== src/Cmd/Service/Calm.antt =====
-- A start of cmd/service that succeeds goes as it goes at a site where every key is set and nothing
-- fails.
use eth_custodial.Prelude.{String, false, some, List, [], ◌∷◌, str_eq, arith}
use eth_custodial.Prelude.Int.{pos}
use eth_custodial.Cmd.Service.State.{Resource, Config, Site, build, outside}
use eth_custodial.Cmd.Service.New.{
  WorkerOpts, SubOpts, new_jet_stream, new_pg_store, make_rpc_gas_oracle, new_sub, worker_kinds,
  add_workers, setup_workers, new_worker_container,
}
use eth_custodial.Cmd.Service.Load.{
  load_jet_stream, load_store, load_chain_provider, new_gas_oracle, load_gas_oracle, load_registry,
  load_pub, load_ens_client, init_sub, init_worker, init_api,
}
use eth_custodial.Cmd.Service.{Mode, worker, sub, api, standalone, init_components}
use eth_custodial.Cmd.Service.Calms.{
  given, Calms, Calms-refl, Calms-loaded, Calms-must, Calms-if, ◌⨾◌,
}

unfoldable pub filled : Config → Config
filled c = record c {
  service_mode = some (given c.service_mode "");
  jetstream_endpoint = some (given c.jetstream_endpoint "");
  jetstream_id = some (given c.jetstream_id "");
  persist_duration_hrs = some (given c.persist_duration_hrs (pos 0));
  postgres_dsn = some (given c.postgres_dsn "");
  chain_rpc_endpoint = some (given c.chain_rpc_endpoint "");
  chain_id = some (given c.chain_id (pos 0));
  divvi_consumer = some (given c.divvi_consumer "");
  ge_registry = some (given c.ge_registry "");
  oracle_type = some (given c.oracle_type "");
  ens_api_key = some (given c.ens_api_key "");
  ens_endpoint = some (given c.ens_endpoint "");
  api_private_key = some (given c.api_private_key "");
  api_address = some (given c.api_address "");
  api_cors = some (given c.api_cors []);
}

-- The same site with every key set and no call failing.
unfoldable pub calm : Site → Site
unfolding filled
calm site = record site {
  conf = filled site.conf;
  fails = λ t. false;
  add_worker_safely = λ rs k. some (given (site.add_worker_safely rs k) rs);
  parse_signing_key = λ s. some (given (site.parse_signing_key s) ("", ""));
}

module _ (site : Site) where
  open site use {conf}

  Calms-outside : Calms (outside site) (outside (calm site))
  unfolding outside calm
  Calms-outside = record { at = λ p x h. ground arith }

  Calms-build : (r : Resource) → Calms (build r) (build r)
  Calms-build r = Calms-refl _

  Calms-load_jet_stream : Calms (load_jet_stream site) (load_jet_stream (calm site))
  unfolding load_jet_stream new_jet_stream calm
  Calms-load_jet_stream = Calms-loaded _ (
      Calms-must conf.jetstream_endpoint "" ⨾ λ _.
      (Calms-outside ⨾ λ _. Calms-outside ⨾ λ _. Calms-refl _) ⨾ λ h. Calms-refl _)

  Calms-new_pg_store : Calms (new_pg_store site) (new_pg_store (calm site))
  unfolding new_pg_store
  Calms-new_pg_store = Calms-outside ⨾ λ _.
      Calms-outside ⨾ λ _. Calms-outside ⨾ λ _. Calms-outside ⨾ λ _. Calms-refl _

  Calms-load_store : Calms (load_store site) (load_store (calm site))
  unfolding load_store calm
  Calms-load_store = Calms-loaded _ (
      Calms-must conf.postgres_dsn "" ⨾ λ _.
      Calms-new_pg_store ⨾ λ h. Calms-refl _ ⨾ λ _. Calms-outside ⨾ λ _. Calms-refl _)

  Calms-load_chain_provider : Calms (load_chain_provider site) (load_chain_provider (calm site))
  unfolding load_chain_provider calm
  Calms-load_chain_provider = Calms-loaded _ (
      Calms-must conf.chain_rpc_endpoint "" ⨾ λ _.
      Calms-must conf.chain_id (pos 0) ⨾ λ _. Calms-must conf.divvi_consumer "" ⨾ λ _. Calms-refl _)

  Calms-new_gas_oracle : (o : String) → Calms (new_gas_oracle site o) (new_gas_oracle (calm site) o)
  unfolding make_rpc_gas_oracle
  Calms-new_gas_oracle o = Calms-if (str_eq o "static") (Calms-refl _) (
      Calms-if (str_eq o "rpc") (Calms-load_chain_provider ⨾ λ _. Calms-outside ⨾ λ _. Calms-refl _)
        (Calms-refl _))

  Calms-load_gas_oracle : Calms (load_gas_oracle site) (load_gas_oracle (calm site))
  unfolding load_gas_oracle calm
  Calms-load_gas_oracle =
      Calms-loaded _
        (Calms-must conf.oracle_type "" ⨾ λ o. Calms-new_gas_oracle o ⨾ λ h. Calms-refl _)

  Calms-load_registry : Calms (load_registry site) (load_registry (calm site))
  unfolding load_registry calm
  Calms-load_registry = Calms-loaded _ (
      Calms-load_chain_provider ⨾ λ _.
      Calms-must conf.ge_registry "" ⨾ λ _. Calms-outside ⨾ λ _. Calms-refl _)

  Calms-load_pub : Calms (load_pub site) (load_pub (calm site))
  unfolding load_pub calm
  Calms-load_pub = Calms-loaded _ (
      Calms-must conf.persist_duration_hrs (pos 0) ⨾ λ _. Calms-load_jet_stream ⨾ λ _. Calms-refl _)

  Calms-load_ens_client : Calms (load_ens_client site) (load_ens_client (calm site))
  unfolding load_ens_client calm
  Calms-load_ens_client =
      Calms-loaded _
        (Calms-must conf.ens_api_key "" ⨾ λ _. Calms-must conf.ens_endpoint "" ⨾ λ _. Calms-refl _)

  Calms-new_sub : (o : SubOpts) → Calms (new_sub site o) (new_sub (calm site) o)
  unfolding new_sub
  Calms-new_sub o = Calms-outside ⨾ λ _. Calms-outside ⨾ λ _. Calms-outside ⨾ λ _. Calms-refl _

  Calms-add_workers :
      (ks rs : List String) → Calms (add_workers site ks rs) (add_workers (calm site) ks rs)
  unfolding add_workers calm
  Calms-add_workers [] rs = Calms-refl _
  Calms-add_workers (k ∷ ks) rs =
      Calms-must (site.add_worker_safely rs k) rs ⨾ λ rs'. Calms-add_workers ks rs'

  Calms-new_worker_container :
      (o : WorkerOpts) → Calms (new_worker_container site o) (new_worker_container (calm site) o)
  unfolding new_worker_container setup_workers
  Calms-new_worker_container o = Calms-outside ⨾ λ _. Calms-outside ⨾ λ _.
      Calms-add_workers worker_kinds [] ⨾ λ _. Calms-outside ⨾ λ _. Calms-refl _

  Calms-init_sub : Calms (init_sub site) (init_sub (calm site))
  unfolding init_sub calm
  Calms-init_sub = Calms-loaded _ (
      Calms-load_chain_provider ⨾ λ _. Calms-load_store ⨾ λ _. Calms-load_jet_stream ⨾ λ _.
      Calms-must conf.jetstream_id "" ⨾ λ _. Calms-load_pub ⨾ λ _.
      Calms-must conf.chain_id (pos 0) ⨾ λ _. Calms-new_sub _ ⨾ λ _. Calms-refl _)

  Calms-init_worker : Calms (init_worker site) (init_worker (calm site))
  unfolding init_worker calm
  Calms-init_worker = Calms-loaded _ (
      Calms-load_registry ⨾ λ _. Calms-load_gas_oracle ⨾ λ _. Calms-load_store ⨾ λ _.
      Calms-load_pub ⨾ λ _.
      Calms-load_chain_provider ⨾ λ _. Calms-load_ens_client ⨾ λ _. Calms-new_worker_container _)

  Calms-init_api : Calms (init_api site) (init_api (calm site))
  unfolding init_api calm
  Calms-init_api = Calms-loaded _ (
      Calms-must conf.api_private_key "" ⨾ λ pem.
      Calms-must (site.parse_signing_key pem) ("", "") ⨾ λ _. Calms-init_worker ⨾ λ _.
      Calms-must conf.api_address "" ⨾ λ _. Calms-must conf.api_cors [] ⨾ λ _.
      Calms-load_registry ⨾ λ _. Calms-load_gas_oracle ⨾ λ _.
      Calms-load_store ⨾ λ _. Calms-load_chain_provider ⨾ λ _. Calms-refl _)

  pub Calms-init_components :
      (m : Mode) → Calms (init_components site m) (init_components (calm site) m)
  unfolding init_components
  Calms-init_components worker = Calms-init_worker ⨾ λ _. Calms-refl _
  Calms-init_components sub = Calms-init_sub ⨾ λ _. Calms-refl _
  Calms-init_components api = Calms-init_api ⨾ λ _. Calms-refl _
  Calms-init_components standalone =
      Calms-init_worker ⨾ λ _. Calms-init_sub ⨾ λ _. Calms-init_api ⨾ λ _. Calms-refl _
