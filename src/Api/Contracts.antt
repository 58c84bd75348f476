-- ===== src/Api/Contracts.antt =====
-- The handlers of internal/api/contracts_handler.go.
use eth_custodial.Prelude.{String, Bool, true, not, ◌&&◌, Option, [], ◌∷◌, ◌==◌, if◌then◌else◌}
use eth_custodial.Jobs.{Address, JobArgs, token_deploy, demurrage_token_deploy, pool_deploy}
use eth_custodial.Store.Results.{or_error, unavailable}
use eth_custodial.World.{M, pure, lift, ◌>>=◌, ◌>>◌}
use eth_custodial.Runtime.{Env}
use eth_custodial.Chain.{tick, w3_a}
use eth_custodial.Pg
use eth_custodial.Api.Response.{Reply, err_response, with_request}
use eth_custodial.Api.Requests.{
  Erc20DeployRequest, PoolDeployRequest, DemurrageErc20DeployRequest, valid_erc20_deploy,
  valid_pool_deploy, valid_demurrage_erc20_deploy,
}
use eth_custodial.Api.Tokens.{queue_job}

-- `address == common.Address{}`
abbrev pub is_zero_address : Address → Bool
is_zero_address [] = true
is_zero_address (b ∷ bs) = b == 0 && is_zero_address bs

abbrev pub symbol_exists : Reply
symbol_exists = err_response 400 "Token with this symbol already exists" "E09"

module _ (env : Env) where
  -- `alreadyExists`: is the symbol in an index? The call takes the symbol as 32 bytes.
  unfoldable pub already_exists : Address → String → M Bool
  already_exists index symbol = do
    t ← tick
    address ← lift (or_error (env.index_entry t index symbol) (unavailable t))
    pure (not (is_zero_address address))

  -- The index of pools that the handlers ask.
  unfoldable pub pool_index_of : M Address
  pool_index_of =
      if env.prod
      then lift (w3_a env "0x01eD8Fe01a2Ca44Cb26D00b1309d7D777471D00C")
      else pure env.pool_index

  -- The common end of the three handlers.
  unfoldable pub queue_unless : Address → String → String → (String → JobArgs) → M Reply
  queue_unless index symbol description args = already_exists index symbol >>= λ exists.
      if exists then pure symbol_exists else (Pg.begin env >> queue_job env description args)

  abbrev pub erc20_args : Erc20DeployRequest → String → JobArgs
  erc20_args req tracking_id = token_deploy (record {
    tracking_id = tracking_id;
    name = req.name;
    symbol = req.symbol;
    decimals = req.decimals;
    initial_supply = req.initial_supply;
    initial_mintee = req.initial_mintee;
    owner = req.owner;
    expiry_timestamp = req.expiry_timestamp;
  })

  unfoldable pub erc20_valid : Erc20DeployRequest → M Reply
  erc20_valid req =
      queue_unless env.token_index req.symbol "ERC20 deploy request successfully created"
        (erc20_args req)

  -- `contractsERC20Handler`
  unfoldable pub contracts_erc20_handler : Option Erc20DeployRequest → M Reply
  contracts_erc20_handler body = with_request (valid_erc20_deploy env) body erc20_valid

  abbrev pub pool_args : PoolDeployRequest → String → JobArgs
  pool_args req tracking_id = pool_deploy (record {
    tracking_id = tracking_id;
    name = req.name;
    symbol = req.symbol;
    owner = req.owner;
  })

  unfoldable pub pool_valid : PoolDeployRequest → M Reply
  pool_valid req = do
    index ← pool_index_of
    queue_unless index req.symbol "Pool deploy request successfully created" (pool_args req)

  -- `contractsPoolHandler`
  unfoldable pub contracts_pool_handler : Option PoolDeployRequest → M Reply
  contracts_pool_handler body = with_request (valid_pool_deploy env) body pool_valid

  abbrev pub demurrage_args : DemurrageErc20DeployRequest → String → JobArgs
  demurrage_args req tracking_id = demurrage_token_deploy (record {
    tracking_id = tracking_id;
    name = req.name;
    symbol = req.symbol;
    decimals = req.decimals;
    initial_supply = req.initial_supply;
    initial_mintee = req.initial_mintee;
    owner = req.owner;
    sink_address = req.sink_address;
    demurrage_rate = req.demurrage_rate;
    demurrage_period = req.demurrage_period;
  })

  -- The symbol of the token is looked up in the index of pools.
  unfoldable pub demurrage_valid : DemurrageErc20DeployRequest → M Reply
  demurrage_valid req = do
    index ← pool_index_of
    queue_unless index req.symbol "Demurrage ERC20 deploy request successfully created"
        (demurrage_args req)

  -- `contractsDemurrageERC20Handler`
  unfoldable pub contracts_demurrage_erc20_handler : Option DemurrageErc20DeployRequest → M Reply
  contracts_demurrage_erc20_handler body =
      with_request (valid_demurrage_erc20_deploy env) body demurrage_valid
