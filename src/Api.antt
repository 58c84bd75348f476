-- ===== src/Api.antt =====
-- internal/api: the HTTP interface. A request is answered by a handler behind the check of its
-- token; what a handler returns as an error becomes a response with the status 500.
pub mod Response
pub mod Requests
pub mod Tokens
pub mod Pools
pub mod Contracts
pub mod Accounts
pub mod Otx
pub mod Auth
pub mod Rpc
pub mod Safety
use eth_custodial.Prelude.{String, Option, List}
use eth_custodial.Store.Results.{Result, ok, err}
use eth_custodial.World.{World, M}
use eth_custodial.Runtime.{Env}
use Response.{Reply, internal_error}
use Requests.{
  LoginRequest, TransferRequest, SweepRequest, PoolSwapRequest, PoolDepositRequest,
  OtxByAccountRequest, Erc20DeployRequest, PoolDeployRequest, DemurrageErc20DeployRequest,
}
use Tokens.{transfer_handler, sweep_handler}
use Pools.{pool_swap_handler, pool_deposit_handler, pool_quote_handler}
use Contracts.{contracts_erc20_handler, contracts_pool_handler, contracts_demurrage_erc20_handler}
use Accounts.{account_create_handler, account_status_handler, system_info_handler}
use Otx.{track_otx_handler, get_otx_by_address_handler}
use Auth.{Token, Session, authenticate, login_handler, logout_handler}
use Rpc.{SendTransactionParams, eth_send_transaction}

-- The routes below `/api/v2`, each with the body or the parameters that the handler binds.
pub data Request : Type 0 where
  system : Request
  account_create : Request
  account_status : Option String → Request
  account_otx : Option OtxByAccountRequest → Request
  otx_track : Option String → Request
  token_transfer : Option TransferRequest → Request
  token_sweep : Option SweepRequest → Request
  pool_quote : Option PoolSwapRequest → Request
  pool_swap : Option PoolSwapRequest → Request
  pool_deposit : Option PoolDepositRequest → Request
  contracts_erc20 : Option Erc20DeployRequest → Request
  contracts_erc20_demurrage : Option DemurrageErc20DeployRequest → Request
  contracts_pool : Option PoolDeployRequest → Request
  eth_send : Option (List SendTransactionParams) → Request

-- All the routes.
pub data Route : Type 0 where
  login : Option LoginRequest → Route
  logout : Route
  api : Token → Request → Route

module _ (env : Env) where
  -- The handlers that `New` registers.
  unfoldable pub handle : Request → Session → M Reply
  handle system s = system_info_handler env
  handle account_create s = account_create_handler env
  handle (account_status p) s = account_status_handler env p
  handle (account_otx q) s = get_otx_by_address_handler env q
  handle (otx_track p) s = track_otx_handler env p
  handle (token_transfer b) s = transfer_handler env b
  handle (token_sweep b) s = sweep_handler env b
  handle (pool_quote b) s = pool_quote_handler env b
  handle (pool_swap b) s = pool_swap_handler env b
  handle (pool_deposit b) s = pool_deposit_handler env b
  handle (contracts_erc20 b) s = contracts_erc20_handler env b
  handle (contracts_erc20_demurrage b) s = contracts_demurrage_erc20_handler env b
  handle (contracts_pool b) s = contracts_pool_handler env b
  handle (eth_send p) s = eth_send_transaction env s p

  unfoldable pub route : Route → M Reply
  route (login b) = login_handler env b
  route logout = logout_handler
  route (api token req) = authenticate token (handle req)

abbrev pub respond : Result Reply → Reply
respond (ok r) = r
respond (err e) = internal_error

-- The answer to a request. The jrpc package writes an error of `eth_sendTransaction` itself, as a
-- JSON-RPC error: `internal_error` stands for that answer too.
unfoldable pub serve : Env → Route → World → Reply × World
serve env r w = (respond (route env r w).0, (route env r w).1)
