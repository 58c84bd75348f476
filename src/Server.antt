-- ===== src/Server.antt =====
-- The workers that internal/worker/worker.go registers with the queue, and the history of a
-- service: jobs, messages and requests in the order in which they are worked off.
pub mod Safety
pub mod Journey
use eth_custodial.Prelude.{List, [], ◌∷◌, String}
use eth_custodial.Jobs.{
  Bytes, JobArgs, dispatch, gas_refill, retrier, account_create, token_transfer, token_sweep,
  pool_swap, pool_deposit, generic_sign, token_deploy, demurrage_token_deploy, pool_deploy,
  dispatch_health_check, unlocker,
}
use eth_custodial.World.{World, M}
use eth_custodial.Runtime.{Env}
use eth_custodial.Worker.Transfers.{token_transfer_work, token_sweep_work, generic_sign_work}
use eth_custodial.Worker.System.{account_create_work, gas_refill_work}
use eth_custodial.Worker.Pools.{pool_swap_work, pool_deposit_work}
use eth_custodial.Worker.Deploys.{token_deploy_work, demurrage_token_deploy_work, pool_deploy_work}
use eth_custodial.Worker.Dispatch.{dispatch_work, retrier_work}
use eth_custodial.Worker.HealthCheck.{health_check_work}
use eth_custodial.Worker.Unlocker.{unlocker_work}
use eth_custodial.Sub.{process_event}
use eth_custodial.Api.{Route, serve}

-- `setupWorkers`: the worker of each kind of job.
unfoldable pub work : Env → JobArgs → M Unit
work env (dispatch args) = dispatch_work env args
work env (gas_refill args) = gas_refill_work env args
work env (retrier args) = retrier_work env args
work env (account_create args) = account_create_work env args
work env (token_transfer args) = token_transfer_work env args
work env (token_sweep args) = token_sweep_work env args
work env (pool_swap args) = pool_swap_work env args
work env (pool_deposit args) = pool_deposit_work env args
work env (generic_sign args) = generic_sign_work env args
work env (token_deploy args) = token_deploy_work env args
work env (demurrage_token_deploy args) = demurrage_token_deploy_work env args
work env (pool_deploy args) = pool_deploy_work env args
work env dispatch_health_check = health_check_work env
work env unlocker = unlocker_work env

-- What happens to the service.
pub data Action : Type 0 where
  job : JobArgs → Action
  report : String → Bytes → Action
  request : Route → Action

unfoldable pub act : Env → Action → World → World
act env (job args) w = (work env args w).1
act env (report subject msg) w = (process_event env subject msg w).1
act env (request r) w = (serve env r w).1

unfoldable pub history : Env → List Action → World → World
history env [] w = w
history env (a ∷ rest) w = history env rest (act env a w)
