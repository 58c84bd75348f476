-- ===== src/Api/Requests.antt =====
-- The requests of pkg/api/api.go, with the rules of their `validate` tags.
use eth_custodial.Prelude.{ℕ, String, Bool, not, ◌&&◌, ltb, str_eq}
use eth_custodial.Prelude.Int.{ℤ, pos, ltb_ℤ}
use eth_custodial.Runtime.{Env}

pub record LoginRequest : Type 0 where
  pub email : String
  pub password : String

pub record TransferRequest : Type 0 where
  pub from : String
  pub to : String
  pub token_address : String
  pub amount : String

pub record SweepRequest : Type 0 where
  pub from : String
  pub to : String
  pub token_address : String

pub record PoolSwapRequest : Type 0 where
  pub from : String
  pub from_token_address : String
  pub to_token_address : String
  pub pool_address : String
  pub amount : String

pub record PoolDepositRequest : Type 0 where
  pub from : String
  pub token_address : String
  pub pool_address : String
  pub amount : String

pub record OtxByAccountRequest : Type 0 where
  pub address : String
  pub per_page : ℤ
  pub cursor : ℤ
  pub next : Bool

pub record Erc20DeployRequest : Type 0 where
  pub name : String
  pub symbol : String
  pub decimals : ℕ
  pub initial_supply : String
  pub initial_mintee : String
  pub owner : String
  pub expiry_timestamp : String

pub record PoolDeployRequest : Type 0 where
  pub name : String
  pub symbol : String
  pub owner : String

pub record DemurrageErc20DeployRequest : Type 0 where
  pub name : String
  pub symbol : String
  pub decimals : ℕ
  pub initial_supply : String
  pub initial_mintee : String
  pub owner : String
  pub sink_address : String
  pub demurrage_rate : String
  pub demurrage_period : String

-- `required` of a text
abbrev pub required : String → Bool
required s = not (str_eq s "")

module _ (env : Env) where
  -- `required,eth_addr_checksum`
  abbrev pub is_address : String → Bool
  is_address s = required s && env.is_checksum_address s

  abbrev pub valid_login : LoginRequest → Bool
  valid_login r = required r.email && env.is_email r.email && required r.password

  unfoldable pub valid_transfer : TransferRequest → Bool
  valid_transfer r =
      is_address r.from && is_address r.to && is_address r.token_address && required r.amount

  unfoldable pub valid_sweep : SweepRequest → Bool
  valid_sweep r = is_address r.from && is_address r.to && is_address r.token_address

  unfoldable pub valid_pool_swap : PoolSwapRequest → Bool
  valid_pool_swap r =
      is_address r.from
      && is_address r.from_token_address
      && is_address r.to_token_address
      && is_address r.pool_address
      && required r.amount

  unfoldable pub valid_pool_deposit : PoolDepositRequest → Bool
  valid_pool_deposit r =
      is_address r.from
      && is_address r.token_address
      && is_address r.pool_address
      && required r.amount

  -- `required,uuid`
  abbrev pub valid_tracking_id : String → Bool
  valid_tracking_id s = required s && env.is_uuid s

  unfoldable pub valid_otx_by_account : OtxByAccountRequest → Bool
  valid_otx_by_account r = is_address r.address && ltb_ℤ (pos 0) r.per_page

  unfoldable pub valid_erc20_deploy : Erc20DeployRequest → Bool
  valid_erc20_deploy r =
      required r.name
      && required r.symbol
      && ltb 0 r.decimals
      && required r.initial_supply
      && is_address r.initial_mintee
      && is_address r.owner

  unfoldable pub valid_pool_deploy : PoolDeployRequest → Bool
  valid_pool_deploy r = required r.name && required r.symbol && is_address r.owner

  unfoldable pub valid_demurrage_erc20_deploy : DemurrageErc20DeployRequest → Bool
  valid_demurrage_erc20_deploy r =
      required r.name
      && required r.symbol
      && ltb 0 r.decimals
      && required r.initial_supply
      && is_address r.initial_mintee
      && is_address r.owner
      && is_address r.sink_address
      && required r.demurrage_rate
      && required r.demurrage_period
