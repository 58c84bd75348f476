-- ===== src/Cmd/Service.antt =====
-- cmd/service/main.go: `main` from the mode to the tasks that it starts, and what it stops.
pub mod State
pub mod New
pub mod Load
pub mod Calms
pub mod Calm
pub mod StartUp
use eth_custodial.Prelude.{String, Option, none, some, List, [], ◌∷◌, ◌++◌, if◌then◌else◌, str_eq}
use eth_custodial.Cmd.Service.State.{
  ◌>>=◌, Handle, WorkerContainer, Subscriber, ApiServer, Site, Process, Boot, pure, must,
}
use eth_custodial.Cmd.Service.Load.{init_sub, init_worker, init_api}

-- The modes that the switch knows.
pub data Mode : Type 0 where
  worker sub api standalone : Mode

abbrev pub parse_mode : String → Option Mode
parse_mode s =
    if str_eq s "worker"
    then some worker
    else if str_eq s "sub"
    then some sub
    else if str_eq s "api"
    then some api
    else if str_eq s "standalone"
    then some standalone
    else none

pub record Components : Type 0 where
  pub worker_component : Option WorkerContainer
  pub api_component : Option ApiServer
  pub sub_component : Option Subscriber

module _ (site : Site) where
  unfoldable pub init_components : Mode → Boot Components
  init_components worker = do
    w ← init_worker site
    pure (record { worker_component = some w; api_component = none; sub_component = none })
  init_components sub = do
    s ← init_sub site
    pure (record { worker_component = none; api_component = none; sub_component = some s })
  init_components api = do
    a ← init_api site
    pure (record { worker_component = none; api_component = some a; sub_component = none })
  init_components standalone = do
    w ← init_worker site
    s ← init_sub site
    a ← init_api site
    pure (record { worker_component = some w; api_component = some a; sub_component = some s })

  -- Any other mode ends the process.
  unfoldable pub main : Boot Components
  main = do text ← must site.conf.service_mode; mode ← must (parse_mode text); init_components mode

-- What runs in a goroutine of its own.
pub data Task : Type 0 where
  serve_api : Handle → Task
  refresh_gas : Task
  work_jobs : Handle → Task
  process_messages : Handle → Task

abbrev api_tasks : Option ApiServer → List Task
api_tasks none = []
api_tasks (some a) = serve_api a.id ∷ []

abbrev worker_tasks : Option WorkerContainer → List Task
worker_tasks none = []
worker_tasks (some w) = refresh_gas ∷ work_jobs w.id ∷ []

abbrev sub_tasks : Option Subscriber → List Task
sub_tasks none = []
sub_tasks (some s) = process_messages s.id ∷ []

abbrev pub tasks : Components → List Task
tasks c = api_tasks c.api_component ++ worker_tasks c.worker_component ++ sub_tasks c.sub_component

-- The variables of a process that was just started.
abbrev pub new_process : Process
new_process = record {
  clock = 0;
  made = [];
  js = none;
  pg_store = none;
  chain_provider = none;
  gas_oracle = none;
  registry = none;
  js_pub = none;
  ens_client = none;
  js_sub = none;
  worker_container = none;
  api_server = none;
}
