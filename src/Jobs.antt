-- ===== src/Jobs.antt =====
-- The arguments of the jobs that the River queue carries (the `...Args` structs of
-- internal/worker), a row of the queue, and the event that internal/pub publishes.
use eth_custodial.Prelude.{ℕ, String, Option, List}
use eth_custodial.Store.Types.{DispatchStatus}

-- Go's `[]byte` and `common.Address`.
abbrev pub Bytes : Type 0
Bytes = List ℕ

abbrev pub Address : Type 0
Address = Bytes

-- internal/keypair `Key`
pub record Key : Type 0 where
  pub public : String
  pub private : String

pub record DispatchArgs : Type 0 where
  pub tracking_id : String
  pub otx_id : ℕ
  pub raw_tx : String

pub record GasRefillArgs : Type 0 where
  pub otx_id : ℕ
  pub tracking_id : String
  pub address : String

pub record RetrierArgs : Type 0 where
  pub tracking_id : String

pub record AccountCreateArgs : Type 0 where
  pub tracking_id : String
  pub key_pair : Key

pub record TokenTransferArgs : Type 0 where
  pub tracking_id : String
  pub from : String
  pub to : String
  pub token_address : String
  pub amount : String

pub record TokenSweepArgs : Type 0 where
  pub tracking_id : String
  pub from : String
  pub to : String
  pub token_address : String

pub record PoolSwapArgs : Type 0 where
  pub tracking_id : String
  pub from : String
  pub from_token_address : String
  pub to_token_address : String
  pub pool_address : String
  pub amount : String

pub record PoolDepositArgs : Type 0 where
  pub tracking_id : String
  pub from : String
  pub token_address : String
  pub pool_address : String
  pub amount : String

pub record GenericSignArgs : Type 0 where
  pub tracking_id : String
  pub to : String
  pub from : String
  pub value : String
  pub input : String

pub record TokenDeployArgs : Type 0 where
  pub tracking_id : String
  pub name : String
  pub symbol : String
  pub decimals : ℕ
  pub initial_supply : String
  pub initial_mintee : String
  pub owner : String
  pub expiry_timestamp : String

pub record DemurrageTokenDeployArgs : Type 0 where
  pub tracking_id : String
  pub name : String
  pub symbol : String
  pub decimals : ℕ
  pub initial_supply : String
  pub initial_mintee : String
  pub owner : String
  pub sink_address : String
  pub demurrage_rate : String
  pub demurrage_period : String

pub record PoolDeployArgs : Type 0 where
  pub tracking_id : String
  pub name : String
  pub symbol : String
  pub owner : String

-- A job's arguments, by kind.
pub data JobArgs : Type 0 where
  dispatch : DispatchArgs → JobArgs
  gas_refill : GasRefillArgs → JobArgs
  retrier : RetrierArgs → JobArgs
  account_create : AccountCreateArgs → JobArgs
  token_transfer : TokenTransferArgs → JobArgs
  token_sweep : TokenSweepArgs → JobArgs
  pool_swap : PoolSwapArgs → JobArgs
  pool_deposit : PoolDepositArgs → JobArgs
  generic_sign : GenericSignArgs → JobArgs
  token_deploy : TokenDeployArgs → JobArgs
  demurrage_token_deploy : DemurrageTokenDeployArgs → JobArgs
  pool_deploy : PoolDeployArgs → JobArgs
  dispatch_health_check : JobArgs
  unlocker : JobArgs

-- A job in the queue with its `river.InsertOpts`; `none` leaves the option to the queue.
pub record Job : Type 0 where
  pub args : JobArgs
  pub priority : Option ℕ
  pub max_attempts : Option ℕ

-- pkg/event `Event`
pub record Event : Type 0 where
  pub tracking_id : String
  pub status : DispatchStatus
