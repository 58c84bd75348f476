-- ===== src/Api/Safety/Settled.antt =====
-- Every handler keeps the invariant of the database, and one that refuses keeps the database.
use eth_custodial.Prelude.{refl}
use eth_custodial.Store.Results.{Result, ok, err}
use eth_custodial.Store.Tables.{Db}
use eth_custodial.Store.Sound.{IsSound}
use eth_custodial.World.{World}
use eth_custodial.World.Hoare.{Ends, Hoare-pure}
use eth_custodial.Runtime.{Env}
use eth_custodial.Pg.Rules.{}
use eth_custodial.Pg.Safe.{Kept}
use eth_custodial.Api.Response.{Reply}
use eth_custodial.Api.Pools.{}
use eth_custodial.Api.Contracts.{}
use eth_custodial.Api.Accounts.{}
use eth_custodial.Api.Otx.{}
use eth_custodial.Api.Rpc.{}
use eth_custodial.Api.Auth.{Session, logout_handler}
use eth_custodial.Api.Safety.Rules.{Hoare-authenticate}
use eth_custodial.Api.Safety.Asks.{}
use eth_custodial.Api.{
  Request, system, account_create, account_status, account_otx, otx_track, token_transfer,
  token_sweep, pool_quote, pool_swap, pool_deposit, contracts_erc20, contracts_erc20_demurrage,
  contracts_pool, eth_send, Route, login, logout, api, handle, route, respond, serve,
}
use eth_custodial.Api.Safety.Settling.{Settles, Settled}
use eth_custodial.Api.Safety.Queueing.{
  transfer_handler-Settled, sweep_handler-Settled, pool_swap_handler-Settled,
  pool_deposit_handler-Settled, erc20_handler-Settled, pool_handler-Settled,
  demurrage_handler-Settled,
}
use eth_custodial.Api.Safety.Reading.{
  system_info_handler-Settled, track_otx_handler-Settled, get_otx_by_address_handler-Settled,
  account_status_handler-Settled, pool_quote_handler-Settled, login_handler-Settled,
  account_create_handler-Settled,
}
use eth_custodial.Api.Safety.Sending.{eth_send_transaction-Settled}

module _ (env : Env) where
  handle-Settled : (req : Request) (s : Session) → Settled (handle env req s)
  unfolding handle
  handle-Settled system s = system_info_handler-Settled env
  handle-Settled account_create s = account_create_handler-Settled env
  handle-Settled (account_status p) s = account_status_handler-Settled env p
  handle-Settled (account_otx q) s = get_otx_by_address_handler-Settled env q
  handle-Settled (otx_track p) s = track_otx_handler-Settled env p
  handle-Settled (token_transfer b) s = transfer_handler-Settled env b
  handle-Settled (token_sweep b) s = sweep_handler-Settled env b
  handle-Settled (pool_quote b) s = pool_quote_handler-Settled env b
  handle-Settled (pool_swap b) s = pool_swap_handler-Settled env b
  handle-Settled (pool_deposit b) s = pool_deposit_handler-Settled env b
  handle-Settled (contracts_erc20 b) s = erc20_handler-Settled env b
  handle-Settled (contracts_erc20_demurrage b) s = demurrage_handler-Settled env b
  handle-Settled (contracts_pool b) s = pool_handler-Settled env b
  handle-Settled (eth_send p) s = eth_send_transaction-Settled env s p

  route-Settled : (r : Route) → Settled (route env r)
  unfolding route logout_handler
  route-Settled (login b) c0 = login_handler-Settled env b c0
  route-Settled logout c0 = Hoare-pure _ (λ c w p. p.0.0)
  route-Settled (api token req) c0 =
      Hoare-authenticate token _ (λ s d x c v p. p.0) (λ s. handle-Settled req s c0)

respond-Settles :
    (c0 : Db) (r : Result Reply) (w : World)
    → Ends (Kept c0) (λ r c w. Settles c0 r c) r w
    → Settles c0 (respond r) w.committed
respond-Settles c0 (ok r) w h = h
respond-Settles c0 (err e) w h = h

-- A request that is answered with an error, whichever calls fail on the way, leaves the committed
-- database as it was, if that is sound; and one that is accepted leaves it sound.
pub serve-Settles :
    (env : Env) (r : Route) (w : World)
    → IsSound w.committed
    → Settles w.committed (serve env r w).0 (serve env r w).1.committed
unfolding serve
serve-Settles env r w s =
    respond-Settles w.committed (route env r w).0 (route env r w).1
      ((route-Settled env r w.committed).at w ((s, refl), tt))
