-- ===== src/Api/Pools.antt =====
-- The handlers of internal/api/pool_handler.go.
use eth_custodial.Prelude.{String, ◌||◌, Option, false, if◌then◌else◌}
use eth_custodial.Prelude.Int.{ℤ}
use eth_custodial.Jobs.{JobArgs, pool_swap, pool_deposit}
use eth_custodial.Store.Results.{or_error, unavailable}
use eth_custodial.World.{M, pure, lift, ◌>>=◌, ◌>>◌}
use eth_custodial.Runtime.{Env}
use eth_custodial.Chain.{tick, string_to_big_int}
use eth_custodial.Pg
use eth_custodial.Api.Response.{Reply, ok_response, err_response, quoted, on_postgres, with_request}
use eth_custodial.Api.Requests.{
  PoolSwapRequest, PoolDepositRequest, valid_pool_swap, valid_pool_deposit,
}
use eth_custodial.Api.Tokens.{is_banned_token, queue_for}

module _ (env : Env) where
  abbrev pub banned_pool_token : Reply
  banned_pool_token = err_response 403 "Not allowed to interact with token" "E08"

  abbrev pub pool_swap_args : PoolSwapRequest → String → JobArgs
  pool_swap_args req tracking_id = pool_swap (record {
    tracking_id = tracking_id;
    from = req.from;
    from_token_address = req.from_token_address;
    to_token_address = req.to_token_address;
    pool_address = req.pool_address;
    amount = req.amount;
  })

  unfoldable pub pool_swap_valid : PoolSwapRequest → M Reply
  pool_swap_valid req =
      if is_banned_token env req.from_token_address || is_banned_token env req.to_token_address
      then pure banned_pool_token
      else on_postgres (Pg.begin env) (λ _.
        queue_for env req.from "Pool swap request successfully created" (pool_swap_args req))

  -- `poolSwapHandler`
  unfoldable pub pool_swap_handler : Option PoolSwapRequest → M Reply
  pool_swap_handler body = with_request (valid_pool_swap env) body pool_swap_valid

  abbrev pub pool_deposit_args : PoolDepositRequest → String → JobArgs
  pool_deposit_args req tracking_id = pool_deposit (record {
    tracking_id = tracking_id;
    from = req.from;
    token_address = req.token_address;
    pool_address = req.pool_address;
    amount = req.amount;
  })

  unfoldable pub pool_deposit_valid : PoolDepositRequest → M Reply
  pool_deposit_valid req =
      if is_banned_token env req.token_address
      then pure banned_pool_token
      else (Pg.begin env
          >> queue_for env req.from "Pool deposit request successfully created"
              (pool_deposit_args req))

  -- `poolDepositHandler`
  unfoldable pub pool_deposit_handler : Option PoolDepositRequest → M Reply
  pool_deposit_handler body = with_request (valid_pool_deposit env) body pool_deposit_valid

  -- `getQuote` of the pool
  unfoldable pub call_quote : PoolSwapRequest → ℤ → M ℤ
  call_quote req amount = do
    t ← tick
    lift (
        or_error
          (env.quote t (env.common_address req.pool_address)
            (env.common_address req.to_token_address) (env.common_address req.from_token_address)
            amount)
          (unavailable t))

  unfoldable pub pool_quote_valid : PoolSwapRequest → M Reply
  pool_quote_valid req = do
    amount ← lift (string_to_big_int env req.amount false)
    out_value ← call_quote req amount
    pure (ok_response "Pool swap quote successfully obtained" (quoted out_value))

  -- `poolQuoteHandler`
  unfoldable pub pool_quote_handler : Option PoolSwapRequest → M Reply
  pool_quote_handler body = with_request (valid_pool_swap env) body pool_quote_valid
