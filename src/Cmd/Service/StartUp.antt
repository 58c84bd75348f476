-- ===== src/Cmd/Service/StartUp.antt =====
-- What a start of cmd/service that succeeds has built: at the site where nothing fails it is
-- computed.
use eth_custodial.Prelude.{
  ◌≡◌, ◌≢◌, refl, sym, ap, ◌∙◌, String, Option, none, some, List, [], ◌∷◌, ◌++◌, inl, inr, str_eq,
  Bool-cases, arith,
}
use mathlib.Core.List.{reverse}
use eth_custodial.Cmd.Service.State.{
  Resource, WorkerContainer, Subscriber, ApiServer, Site, Process, pure, exit, must, continue,
  ◌>>=◌, build, assign, loaded, outside,
}
use eth_custodial.Cmd.Service.New.{
  new_jet_stream, new_pg_store, make_rpc_gas_oracle, new_sub, add_workers, setup_workers,
  new_worker_container,
}
use eth_custodial.Cmd.Service.Load.{
  load_jet_stream, load_store, load_chain_provider, load_gas_oracle, load_registry, load_pub,
  load_ens_client, init_sub, init_worker, init_api,
}
use eth_custodial.Cmd.Service.{
  Mode, worker, sub, api, standalone, parse_mode, Components, init_components, main, serve_api,
  refresh_gas, work_jobs, process_messages, tasks, new_process,
}
use eth_custodial.Cmd.Service.Calms.{given}
use eth_custodial.Cmd.Service.Calm.{filled, calm, Calms-init_components}

abbrev worker_builds : List Resource
worker_builds =
    Resource.chain_provider ∷ Resource.registry ∷ Resource.gas_oracle ∷ Resource.pg_store
    ∷ Resource.jet_stream ∷ Resource.publisher ∷ Resource.ens_client ∷ Resource.worker_container
    ∷ []

-- What a mode builds, in this order.
abbrev pub builds : Mode → List Resource
builds worker = worker_builds
builds sub =
    Resource.chain_provider ∷ Resource.pg_store ∷ Resource.jet_stream ∷ Resource.publisher
    ∷ Resource.subscriber ∷ []
builds api = worker_builds ++ Resource.api_server ∷ []
builds standalone =
    worker_builds ++ Resource.subscriber ∷ Resource.worker_container ∷ Resource.api_server ∷ []

abbrev pub only : Option WorkerContainer → Option ApiServer → Option Subscriber → Components
only w a s = record { worker_component = w; api_component = a; sub_component = s }

-- What a mode runs. In the last mode the server queues its jobs through a worker container that is
-- not the one that runs.
abbrev pub Runs : Mode → Components → Type 0
Runs worker c =
    (w : WorkerContainer) × (c ≡ only (some w) none none)
    × (tasks c ≡ refresh_gas ∷ work_jobs w.id ∷ [])
Runs sub c =
    (s : Subscriber) × (c ≡ only none none (some s)) × (tasks c ≡ process_messages s.id ∷ [])
Runs api c = (a : ApiServer) × (c ≡ only none (some a) none) × (tasks c ≡ serve_api a.id ∷ [])
Runs standalone c =
    (w : WorkerContainer) × (a : ApiServer) × (s : Subscriber) × (c
      ≡ only (some w) (some a) (some s))
    × (tasks c ≡ serve_api a.id ∷ refresh_gas ∷ work_jobs w.id ∷ process_messages s.id ∷ [])
    × (a.queue_client ≢ w.id)

abbrev Good : Mode → Option (Components × Process) → Type 0
Good m none = Unit
Good m (some (c, p)) = (reverse p.made ≡ builds m) × Runs m c

module _ (site : Site) where
  open site use {conf}

  calm_start : (m : Mode) → Good m (init_components (calm site) m new_process)
  unfolding init_components calm filled init_worker init_sub init_api load_registry load_gas_oracle
      load_store load_pub load_jet_stream load_chain_provider load_ens_client new_jet_stream
      new_pg_store make_rpc_gas_oracle new_sub new_worker_container setup_workers add_workers loaded
      must outside build assign pure exit ◌>>=◌
  calm_start worker = elim (Bool-cases (str_eq (given conf.oracle_type "") "static")) [
    | inl e ↦ rw e (refl, (_, refl, refl))
    | inr e ↦ elim (Bool-cases (str_eq (given conf.oracle_type "") "rpc")) [
      | inl f ↦ rw (e, f) (refl, (_, refl, refl))
      | inr f ↦ rw (e, f) tt
    ]
  ]
  calm_start sub = (refl, (_, refl, refl))
  calm_start api = elim (Bool-cases (str_eq (given conf.oracle_type "") "static")) [
    | inl e ↦ rw e (refl, (_, refl, refl))
    | inr e ↦ elim (Bool-cases (str_eq (given conf.oracle_type "") "rpc")) [
      | inl f ↦ rw (e, f) (refl, (_, refl, refl))
      | inr f ↦ rw (e, f) tt
    ]
  ]
  calm_start standalone = elim (Bool-cases (str_eq (given conf.oracle_type "") "static")) [
    | inl e ↦ rw e (refl, (_, _, _, refl, refl, omega arith))
    | inr e ↦ elim (Bool-cases (str_eq (given conf.oracle_type "") "rpc")) [
      | inl f ↦ rw (e, f) (refl, (_, _, _, refl, refl, omega arith))
      | inr f ↦ rw (e, f) tt
    ]
  ]

  main_lem :
      (text : String) (m : Mode) (p : Process)
      → conf.service_mode ≡ some text
      → parse_mode text ≡ some m
      → main site p ≡ init_components site m p
  unfolding main must ◌>>=◌
  main_lem text m p e f =
      ap (λ t. continue (must t p) (λ s. must (parse_mode s) >>= init_components site)) e
      ∙ ap (λ t. continue (must t p) (init_components site)) f

  -- A start of cmd/service that succeeds, whichever calls could have failed, builds what belongs to
  -- its mode, in this order, and runs the tasks of its components: the gas oracle is refreshed in
  -- the modes with workers only, and in the mode standalone the server queues its jobs through a
  -- worker container that is not the one that runs, because `initWorker` builds one at each call.
  pub start_up_lem :
      (text : String) (m : Mode) (c : Components) (p : Process)
      → conf.service_mode ≡ some text
      → parse_mode text ≡ some m
      → main site new_process ≡ some (c, p)
      → (reverse p.made ≡ builds m) × Runs m c
  start_up_lem text m c p e f h =
      let run : init_components site m new_process ≡ some (c, p) =
        sym (main_lem text m new_process e f) ∙ h in
      let good = calm_start m in
      rw ((Calms-init_components site m).at new_process (c, p) run) at good
