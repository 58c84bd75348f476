-- ===== src/Api/Safety/Accepted.antt =====
-- What the requests that queue a job have passed when they are accepted.
use eth_custodial.Prelude.{Option, none, some}
use eth_custodial.World.{World, M}
use eth_custodial.Runtime.{Env}
use eth_custodial.Api.Response.{Reply}
use eth_custodial.Api.Safety.Queued.{Ask, Asks}
use eth_custodial.Api.Safety.Asks.{
  transfer_ask, sweep_ask, pool_swap_ask, pool_deposit_ask, erc20_ask, pool_ask, demurrage_ask,
}
use eth_custodial.Api.{
  Request, token_transfer, token_sweep, pool_swap, pool_deposit, contracts_erc20,
  contracts_erc20_demurrage, contracts_pool,
}

-- The requests that queue a job for a worker, with what they ask for.
abbrev pub ask_of : Env → Request → Option Ask
ask_of env (token_transfer (some req)) = some (transfer_ask env req)
ask_of env (token_sweep (some req)) = some (sweep_ask env req)
ask_of env (pool_swap (some req)) = some (pool_swap_ask env req)
ask_of env (pool_deposit (some req)) = some (pool_deposit_ask env req)
ask_of env (contracts_erc20 (some req)) = some (erc20_ask env req)
ask_of env (contracts_erc20_demurrage (some req)) = some (demurrage_ask env req)
ask_of env (contracts_pool (some req)) = some (pool_ask env req)
ask_of env _ = none

abbrev pub AsksFor : Option Ask → M Reply → Type 0
AsksFor none m = Unit
AsksFor (some ask) m = Asks ask m
