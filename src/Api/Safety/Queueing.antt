-- ===== src/Api/Safety/Queueing.antt =====
-- The handlers that queue a job keep the invariant of the database.
use eth_custodial.Prelude.{Option, none, some}
use eth_custodial.World.Hoare.{Hoare-pure}
use eth_custodial.Runtime.{Env}
use eth_custodial.Pg.Rules.{}
use eth_custodial.Pg.Safe.{}
use eth_custodial.Api.Tokens.{transfer_handler, sweep_handler}
use eth_custodial.Api.Pools.{pool_swap_handler, pool_deposit_handler}
use eth_custodial.Api.Contracts.{
  contracts_erc20_handler, contracts_pool_handler, contracts_demurrage_erc20_handler,
}
use eth_custodial.Api.Accounts.{}
use eth_custodial.Api.Otx.{}
use eth_custodial.Api.Rpc.{}
use eth_custodial.Api.Safety.Rules.{}
use eth_custodial.Api.Safety.Asks.{
  transfer_handler-Asks, sweep_handler-Asks, pool_swap_handler-Asks, pool_deposit_handler-Asks,
  erc20_handler-Asks, pool_handler-Asks, demurrage_handler-Asks,
}
use eth_custodial.Api.{}
use eth_custodial.Api.Safety.Settling.{Settled, Asks-Settled}

module _ (env : Env) where
  pub transfer_handler-Settled : (b : Option _) → Settled (transfer_handler env b)
  unfolding transfer_handler
  transfer_handler-Settled none c0 = Hoare-pure _ (λ c w p. p.0)
  transfer_handler-Settled (some req) c0 =
      Asks-Settled _ (λ id d. tt) (unfold transfer_handler in transfer_handler-Asks env req) c0

  pub sweep_handler-Settled : (b : Option _) → Settled (sweep_handler env b)
  unfolding sweep_handler
  sweep_handler-Settled none c0 = Hoare-pure _ (λ c w p. p.0)
  sweep_handler-Settled (some req) c0 =
      Asks-Settled _ (λ id d. tt) (unfold sweep_handler in sweep_handler-Asks env req) c0

  pub pool_swap_handler-Settled : (b : Option _) → Settled (pool_swap_handler env b)
  unfolding pool_swap_handler
  pool_swap_handler-Settled none c0 = Hoare-pure _ (λ c w p. p.0)
  pool_swap_handler-Settled (some req) c0 =
      Asks-Settled _ (λ id d. tt) (unfold pool_swap_handler in pool_swap_handler-Asks env req) c0

  pub pool_deposit_handler-Settled : (b : Option _) → Settled (pool_deposit_handler env b)
  unfolding pool_deposit_handler
  pool_deposit_handler-Settled none c0 = Hoare-pure _ (λ c w p. p.0)
  pool_deposit_handler-Settled (some req) c0 =
      Asks-Settled _ (λ id d. tt) (unfold pool_deposit_handler in pool_deposit_handler-Asks env req)
        c0

  pub erc20_handler-Settled : (b : Option _) → Settled (contracts_erc20_handler env b)
  unfolding contracts_erc20_handler
  erc20_handler-Settled none c0 = Hoare-pure _ (λ c w p. p.0)
  erc20_handler-Settled (some req) c0 =
      Asks-Settled _ (λ id d. tt) (unfold contracts_erc20_handler in erc20_handler-Asks env req) c0

  pub pool_handler-Settled : (b : Option _) → Settled (contracts_pool_handler env b)
  unfolding contracts_pool_handler
  pool_handler-Settled none c0 = Hoare-pure _ (λ c w p. p.0)
  pool_handler-Settled (some req) c0 =
      Asks-Settled _ (λ id d. tt) (unfold contracts_pool_handler in pool_handler-Asks env req) c0

  pub demurrage_handler-Settled : (b : Option _) → Settled (contracts_demurrage_erc20_handler env b)
  unfolding contracts_demurrage_erc20_handler
  demurrage_handler-Settled none c0 = Hoare-pure _ (λ c w p. p.0)
  demurrage_handler-Settled (some req) c0 =
      Asks-Settled _ (λ id d. tt)
        (unfold contracts_demurrage_erc20_handler in demurrage_handler-Asks env req) c0
