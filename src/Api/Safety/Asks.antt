-- ===== src/Api/Safety/Asks.antt =====
-- What each handler that queues a job asks for before it accepts a request.
use eth_custodial.Prelude.{◌≡◌, refl, String, true, not, ◌||◌, ◌&&◌, none, some}
use eth_custodial.Jobs.{Address}
use eth_custodial.Store.Tables.{Db}
use eth_custodial.World.Hoare.{
  Hoare, Still, ◌⨾◌, still, Still-bind, Still-lift, Still-if, Still-pure,
}
use eth_custodial.Runtime.{Env}
use eth_custodial.Pg.Safe.{Both}
use eth_custodial.Worker.Safety.Steps.{Still-tick}
use eth_custodial.Api.Requests.{
  TransferRequest, SweepRequest, PoolSwapRequest, PoolDepositRequest, Erc20DeployRequest,
  PoolDeployRequest, DemurrageErc20DeployRequest, valid_transfer, valid_sweep, valid_pool_swap,
  valid_pool_deposit, valid_erc20_deploy, valid_pool_deploy, valid_demurrage_erc20_deploy,
}
use eth_custodial.Api.Tokens.{
  is_banned_token, stop_pretium_leak, transfer_valid, transfer_handler, sweep_valid, sweep_handler,
}
use eth_custodial.Api.Pools.{
  pool_swap_valid, pool_swap_handler, pool_deposit_valid, pool_deposit_handler,
}
use eth_custodial.Api.Contracts.{
  already_exists, pool_index_of, queue_unless, erc20_valid, contracts_erc20_handler, pool_valid,
  contracts_pool_handler, demurrage_valid, contracts_demurrage_erc20_handler,
}
use eth_custodial.Api.Safety.Arguments.{
  transfer_arguments, sweep_arguments, pool_swap_arguments, pool_deposit_arguments, erc20_arguments,
  pool_arguments, demurrage_arguments,
}
use eth_custodial.Api.Safety.Rules.{Is, Hoare-if_eq}
use eth_custodial.Api.Safety.Queued.{
  Ask, Post, Asks, Hoare-queue_job, Hoare-queue_for, Hoare-open, Hoare-open_for, Hoare-refused,
}

module _ (env : Env) where
  -- What the token and pool handlers ask for.
  abbrev pub transfer_ask : TransferRequest → Ask
  transfer_ask req = record {
    allowed =
        valid_transfer env req
        && (not (is_banned_token env req.token_address)
            && not (stop_pretium_leak env req.to req.token_address));
    account = some req.from;
    args = transfer_arguments req;
  }

  abbrev pub sweep_ask : SweepRequest → Ask
  sweep_ask req = record {
    allowed =
        valid_sweep env req
        && (not (is_banned_token env req.token_address)
            && not (stop_pretium_leak env req.to req.token_address));
    account = some req.from;
    args = sweep_arguments req;
  }

  abbrev pub pool_swap_ask : PoolSwapRequest → Ask
  pool_swap_ask req = record {
    allowed =
        valid_pool_swap env req
        && not (
            is_banned_token env req.from_token_address || is_banned_token env req.to_token_address);
    account = some req.from;
    args = pool_swap_arguments req;
  }

  abbrev pub pool_deposit_ask : PoolDepositRequest → Ask
  pool_deposit_ask req = record {
    allowed = valid_pool_deposit env req && not (is_banned_token env req.token_address);
    account = some req.from;
    args = pool_deposit_arguments req;
  }

  pub transfer_handler-Asks :
      (req : TransferRequest) → Asks (transfer_ask req) (transfer_handler env (some req))
  unfolding transfer_handler transfer_valid
  transfer_handler-Asks req c0 =
      Hoare-if_eq (valid_transfer env req)
        (λ v.
          Hoare-if_eq (is_banned_token env req.token_address) (λ b. Hoare-refused env _ _ _ _)
            λ b.
              Hoare-if_eq (stop_pretium_leak env req.to req.token_address)
                (λ l. Hoare-refused env _ _ _ _)
                λ l. Hoare-open_for env req.from (transfer_ask req) _ (rw (v, b, l) refl) refl)
        (λ v. Hoare-refused env _ _ _ _)

  pub sweep_handler-Asks :
      (req : SweepRequest) → Asks (sweep_ask req) (sweep_handler env (some req))
  unfolding sweep_handler sweep_valid
  sweep_handler-Asks req c0 =
      Hoare-if_eq (valid_sweep env req)
        (λ v.
          Hoare-if_eq (is_banned_token env req.token_address) (λ b. Hoare-refused env _ _ _ _)
            λ b.
              Hoare-if_eq (stop_pretium_leak env req.to req.token_address)
                (λ l. Hoare-refused env _ _ _ _)
                λ l. Hoare-open_for env req.from (sweep_ask req) _ (rw (v, b, l) refl) refl)
        (λ v. Hoare-refused env _ _ _ _)

  pub pool_swap_handler-Asks :
      (req : PoolSwapRequest) → Asks (pool_swap_ask req) (pool_swap_handler env (some req))
  unfolding pool_swap_handler pool_swap_valid
  pool_swap_handler-Asks req c0 =
      Hoare-if_eq (valid_pool_swap env req)
        (λ v.
          Hoare-if_eq
            (is_banned_token env req.from_token_address || is_banned_token env req.to_token_address)
            (λ b. Hoare-refused env _ _ _ _)
            λ b. Hoare-open_for env req.from (pool_swap_ask req) _ (rw (v, b) refl) refl)
        (λ v. Hoare-refused env _ _ _ _)

  pub pool_deposit_handler-Asks :
      (req : PoolDepositRequest) → Asks (pool_deposit_ask req) (pool_deposit_handler env (some req))
  unfolding pool_deposit_handler pool_deposit_valid
  pool_deposit_handler-Asks req c0 =
      Hoare-if_eq (valid_pool_deposit env req)
        (λ v.
          Hoare-if_eq (is_banned_token env req.token_address) (λ b. Hoare-refused env _ _ _ _)
            λ b. Hoare-open env ⨾ λ _.
              Hoare-queue_for env req.from (pool_deposit_ask req) _ (rw (v, b) refl) refl)
        (λ v. Hoare-refused env _ _ _ _)

  -- What the handlers of contracts ask for; the symbol is looked up on the chain.
  abbrev pub erc20_ask : Erc20DeployRequest → Ask
  erc20_ask req = record {
    allowed = valid_erc20_deploy env req;
    account = none;
    args = erc20_arguments req;
  }

  abbrev pub pool_ask : PoolDeployRequest → Ask
  pool_ask req = record {
    allowed = valid_pool_deploy env req;
    account = none;
    args = pool_arguments req;
  }

  abbrev pub demurrage_ask : DemurrageErc20DeployRequest → Ask
  demurrage_ask req = record {
    allowed = valid_demurrage_erc20_deploy env req;
    account = none;
    args = demurrage_arguments req;
  }

  Still-already_exists :
      (index : Address) (symbol : String) → Still (already_exists env index symbol)
  unfolding already_exists
  Still-already_exists index symbol =
      Still-bind Still-tick λ t. Still-bind (Still-lift _) λ a. Still-pure _

  Still-pool_index_of : Still (pool_index_of env)
  unfolding pool_index_of
  Still-pool_index_of = Still-if env.prod (Still-lift _) (Still-pure _)

  Hoare-queue_unless :
      {c0 : Db} (index : Address) (symbol description : String) (ask : Ask)
      → ask.allowed ≡ true
      → ask.account ≡ none
      → Hoare
          (Is c0)
          (Both (Is c0) (λ _. Unit))
          (queue_unless env index symbol description ask.args)
          (λ r c w. Post ask c0 r c)
  unfolding queue_unless
  Hoare-queue_unless index symbol description ask h a =
      still (λ c w p. p.0) (Still-already_exists index symbol) ⨾ λ exists.
      Hoare-if_eq exists (λ _. Hoare-refused env _ _ _ _)
        λ _. Hoare-open env ⨾ λ _. Hoare-queue_job env ask description h (rw a tt)

  pub erc20_handler-Asks :
      (req : Erc20DeployRequest) → Asks (erc20_ask req) (contracts_erc20_handler env (some req))
  unfolding contracts_erc20_handler erc20_valid
  erc20_handler-Asks req c0 =
      Hoare-if_eq _ (λ v. Hoare-queue_unless _ _ _ (erc20_ask req) v refl)
        (λ v. Hoare-refused env _ _ _ _)

  pub pool_handler-Asks :
      (req : PoolDeployRequest) → Asks (pool_ask req) (contracts_pool_handler env (some req))
  unfolding contracts_pool_handler pool_valid
  pool_handler-Asks req c0 =
      Hoare-if_eq _
        (λ v. still (λ c w p. p.0) Still-pool_index_of ⨾ λ index.
          Hoare-queue_unless _ _ _ (pool_ask req) v refl)
        (λ v. Hoare-refused env _ _ _ _)

  pub demurrage_handler-Asks :
      (req : DemurrageErc20DeployRequest)
      → Asks (demurrage_ask req) (contracts_demurrage_erc20_handler env (some req))
  unfolding contracts_demurrage_erc20_handler demurrage_valid
  demurrage_handler-Asks req c0 =
      Hoare-if_eq _
        (λ v. still (λ c w p. p.0) Still-pool_index_of ⨾ λ index.
          Hoare-queue_unless _ _ _ (demurrage_ask req) v refl)
        (λ v. Hoare-refused env _ _ _ _)
