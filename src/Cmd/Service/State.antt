-- ===== src/Cmd/Service/State.antt =====
-- The process of cmd/service: its configuration, its package variables (cmd/service/init.go) and
-- what it has built. `none` is a process that ended, by `os.Exit(1)` or by a panic.
use eth_custodial.Prelude.{ℕ, suc, String, Bool, Option, none, some, List, ◌∷◌, if◌then◌else◌}
use eth_custodial.Prelude.Int.{ℤ}
use eth_custodial.Jobs.{JobArgs}

-- What the start-up builds.
pub data Resource : Type 0 where
  jet_stream pg_store chain_provider gas_oracle registry publisher : Resource
  ens_client subscriber worker_container api_server : Resource

-- A pointer to something built, by the moment at which it was built.
abbrev pub Handle : Type 0
Handle = ℕ

-- River's `PeriodicJob`; the interval is in seconds.
pub record PeriodicJob : Type 0 where
  pub interval : ℕ
  pub args : JobArgs
  pub run_on_start : Bool

pub record WorkerContainer : Type 0 where
  pub id : Handle
  pub registry : Handle
  pub max_workers : ℤ
  pub gas_oracle : Handle
  pub store : Handle
  pub pub_client : Handle
  pub chain_provider : Handle
  pub ens_client : Handle
  pub prod : Bool
  -- the kinds of job that have a worker
  pub workers : List String
  pub periodic_jobs : List PeriodicJob

pub record Subscriber : Type 0 where
  pub id : Handle
  pub provider : Handle
  pub store : Handle
  pub js : Handle
  pub consumer_id : String
  pub pub_client : Handle
  pub activate_divvi_submissions : Bool

pub record ApiServer : Type 0 where
  pub id : Handle
  pub prod : Bool
  pub enable_metrics : Bool
  pub enable_docs : Bool
  pub jrpc : Bool
  pub listen_address : String
  pub cors : List String
  pub registry : Handle
  pub signing_key : String
  pub verifying_key : String
  pub gas_oracle : Handle
  pub store : Handle
  pub chain_provider : Handle
  -- the worker container whose client queues the jobs
  pub queue_client : Handle
  pub banned_tokens : List String

-- The keys that the start-up reads; `none` is a key that is missing or empty, at which the `Must`
-- functions of koanf panic.
pub record Config : Type 0 where
  pub service_mode : Option String
  pub jetstream_endpoint : Option String
  pub jetstream_id : Option String
  pub persist_duration_hrs : Option ℤ
  pub postgres_dsn : Option String
  pub chain_rpc_endpoint : Option String
  pub chain_id : Option ℤ
  pub divvi_consumer : Option String
  pub ge_registry : Option String
  pub oracle_type : Option String
  pub ens_api_key : Option String
  pub ens_endpoint : Option String
  pub api_private_key : Option String
  pub api_address : Option String
  pub api_cors : Option (List String)
  -- `ko.Int`, `ko.Bool` and `ko.Strings`, which have a default
  pub workers_max : ℤ
  pub workers_prod : Bool
  pub api_prod : Bool
  pub api_docs : Bool
  pub api_jrpc : Bool
  pub service_metrics : Bool
  pub banned_tokens : List String

-- What surrounds the process.
pub record Site : Type 0 where
  pub conf : Config
  -- does the call made at this moment fail?
  pub fails : ℕ → Bool
  pub num_cpu : ℕ
  pub celo_mainnet : ℤ
  -- River's `AddWorkerSafely` on the kinds that are registered
  pub add_worker_safely : List String → String → Option (List String)
  -- `ParseEdPrivateKeyFromPEM` with its public key
  pub parse_signing_key : String → Option (String × String)

-- The package variables, and what was built, the newest first.
pub record Process : Type 0 where
  pub clock : ℕ
  pub made : List Resource
  pub js : Option Handle
  pub pg_store : Option Handle
  pub chain_provider : Option Handle
  pub gas_oracle : Option Handle
  pub registry : Option Handle
  pub js_pub : Option Handle
  pub ens_client : Option Handle
  pub js_sub : Option Subscriber
  pub worker_container : Option WorkerContainer
  pub api_server : Option ApiServer

abbrev pub Boot : Type 0 → Type 0
Boot A = Process → Option (A × Process)

module _ {A : Type 0} where
  unfoldable pub pure : A → Boot A
  pure a p = some (a, p)

  unfoldable pub exit : Boot A
  exit p = none

  -- A `Must` function, and an error that ends the process.
  unfoldable pub must : Option A → Boot A
  must none p = none
  must (some a) p = some (a, p)

module _ {A B : Type 0} where
  abbrev pub continue : Option (A × Process) → (A → Boot B) → Option (B × Process)
  continue none f = none
  continue (some (a, p)) f = f a p

  infixl 5 ◌>>=◌ ◌>>◌
  unfoldable pub ◌>>=◌ : Boot A → (A → Boot B) → Boot B
  unfolding pure exit must
  ◌>>=◌ m f p = continue (m p) f

  abbrev pub ◌>>◌ : Boot A → Boot B → Boot B
  m >> n = m >>= λ _. n

-- Something is built, and cannot fail to be.
unfoldable pub build : Resource → Boot Handle
build r p = some (p.clock, record p { clock = suc p.clock; made = r ∷ p.made })

unfoldable pub assign : (Process → Process) → Boot Unit
assign f p = some (tt, f p)

module _ {A : Type 0} where
  abbrev pub or_load : Option A → Boot A → Boot A
  or_load (some a) m p = some (a, p)
  or_load none m p = m p

  -- `if x != nil { return x }`
  unfoldable pub loaded : (Process → Option A) → Boot A → Boot A
  loaded f m p = or_load (f p) m p

-- A call whose error ends the process.
unfoldable pub outside : Site → Boot Unit
outside site p =
    let p' = record p { clock = suc p.clock } in if site.fails p.clock then none else some (tt, p')
