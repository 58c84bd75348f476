-- ===== src/Api/Safety/Arguments.antt =====
-- The arguments that a request is to put into its job, field by field, by its tracking id.
use eth_custodial.Prelude.{String}
use eth_custodial.Jobs.{
  JobArgs, token_transfer, token_sweep, pool_swap, pool_deposit, token_deploy, pool_deploy,
  demurrage_token_deploy,
}
use eth_custodial.Api.Requests.{
  TransferRequest, SweepRequest, PoolSwapRequest, PoolDepositRequest, Erc20DeployRequest,
  PoolDeployRequest, DemurrageErc20DeployRequest,
}

abbrev pub transfer_arguments : TransferRequest → String → JobArgs
transfer_arguments req tracking_id = token_transfer (record {
  tracking_id = tracking_id;
  from = req.from;
  to = req.to;
  token_address = req.token_address;
  amount = req.amount;
})

abbrev pub sweep_arguments : SweepRequest → String → JobArgs
sweep_arguments req tracking_id = token_sweep (record {
  tracking_id = tracking_id;
  from = req.from;
  to = req.to;
  token_address = req.token_address;
})

abbrev pub pool_swap_arguments : PoolSwapRequest → String → JobArgs
pool_swap_arguments req tracking_id = pool_swap (record {
  tracking_id = tracking_id;
  from = req.from;
  from_token_address = req.from_token_address;
  to_token_address = req.to_token_address;
  pool_address = req.pool_address;
  amount = req.amount;
})

abbrev pub pool_deposit_arguments : PoolDepositRequest → String → JobArgs
pool_deposit_arguments req tracking_id = pool_deposit (record {
  tracking_id = tracking_id;
  from = req.from;
  token_address = req.token_address;
  pool_address = req.pool_address;
  amount = req.amount;
})

abbrev pub erc20_arguments : Erc20DeployRequest → String → JobArgs
erc20_arguments req tracking_id = token_deploy (record {
  tracking_id = tracking_id;
  name = req.name;
  symbol = req.symbol;
  decimals = req.decimals;
  initial_supply = req.initial_supply;
  initial_mintee = req.initial_mintee;
  owner = req.owner;
  expiry_timestamp = req.expiry_timestamp;
})

abbrev pub pool_arguments : PoolDeployRequest → String → JobArgs
pool_arguments req tracking_id =
    pool_deploy (record {
      tracking_id = tracking_id;
      name = req.name;
      symbol = req.symbol;
      owner = req.owner;
    })

abbrev pub demurrage_arguments : DemurrageErc20DeployRequest → String → JobArgs
demurrage_arguments req tracking_id = demurrage_token_deploy (record {
  tracking_id = tracking_id;
  name = req.name;
  symbol = req.symbol;
  decimals = req.decimals;
  initial_supply = req.initial_supply;
  initial_mintee = req.initial_mintee;
  owner = req.owner;
  sink_address = req.sink_address;
  demurrage_rate = req.demurrage_rate;
  demurrage_period = req.demurrage_period;
})
