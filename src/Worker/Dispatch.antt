-- ===== src/Worker/Dispatch.antt =====
-- The worker that hands a signed transaction to the chain, internal/worker/dispatch.go, and the
-- one that is to retry, internal/worker/retrier.go.
pub mod Outcome
pub mod Retrier
use eth_custodial.Prelude.{String, Bool, true, false, not, none, some, List, [], ◌∷◌, if◌then◌else◌}
use eth_custodial.Jobs.{DispatchArgs, RetrierArgs, Job, retrier}
use eth_custodial.Store.Types.{
  DispatchStatus, in_network, no_gas, low_gas_price, low_nonce, replacement_underpriced,
  network_error,
}
use eth_custodial.Store.Tables.{Otx}
use eth_custodial.Store.Results.{
  DispatchErr, insufficient_gas, gas_price_too_low, nonce_too_low, replacement_tx_underpriced,
  network, or_error, bad_hex, unknown_send_error, no_otx_found, dispatch_error, job_cancel,
}
use eth_custodial.World.{M, pure, raise, lift, ignore_error, ◌>>=◌, ◌>>◌}
use eth_custodial.Runtime.{Env}
use eth_custodial.Chain.{call_send_raw_tx}
use eth_custodial.Pg
use eth_custodial.Worker.DispatchError.{SendError, sent_ok, classified, unclassified, send_error}

-- The status of a dispatch error; the initial `UNKNOWN_RPC_ERROR` is replaced in every case.
abbrev pub status_of_error : DispatchErr → DispatchStatus
status_of_error network = network_error
status_of_error gas_price_too_low = low_gas_price
status_of_error insufficient_gas = no_gas
status_of_error nonce_too_low = low_nonce
status_of_error replacement_tx_underpriced = replacement_underpriced

abbrev pub retrier_job : String → Job
retrier_job tracking_id = record {
  args = retrier (record { tracking_id = tracking_id });
  priority = none;
  max_attempts = some 1;
}

abbrev pub is_network : DispatchErr → Bool
is_network network = true
is_network _ = false

module _ (env : Env) where
  -- The update, the event and the commit that both outcomes share.
  unfoldable pub save_status : DispatchArgs → DispatchStatus → M Unit
  save_status args s = do
    Pg.update_dispatch_tx_status env args.otx_id s
    ignore_error (Pg.send env (record { tracking_id = args.tracking_id; status = s }))
    Pg.commit env

  -- A network error goes back to the queue, any other is left to the retrier and cancelled.
  unfoldable pub give_up_or_retry : DispatchArgs → DispatchErr → M Unit
  give_up_or_retry args e =
      if is_network e
      then raise (dispatch_error e)
      else do Pg.insert env (retrier_job args.tracking_id); raise (job_cancel e)

  unfoldable pub after_send : DispatchArgs → SendError → M Unit
  after_send args sent_ok = save_status args in_network
  after_send args (classified e) = do save_status args (status_of_error e); give_up_or_retry args e
  after_send args unclassified = raise unknown_send_error

  -- `DisptachWorker.Work`
  unfoldable pub dispatch_work : DispatchArgs → M Unit
  dispatch_work args = do
    Pg.begin env
    raw ← lift (or_error (env.hex_decode args.raw_tx) bad_hex)
    answer ← call_send_raw_tx env raw
    after_send args (send_error answer)

-- `isChainError`
abbrev pub is_chain_error : DispatchStatus → Bool
is_chain_error no_gas = true
is_chain_error low_gas_price = true
is_chain_error replacement_underpriced = true
is_chain_error low_nonce = true
is_chain_error _ = false

-- How the loop over the transactions of a tracking id ends: a `break` of the loop and its end
-- both lead to the last `return nil`. The `break` of the cases LOW_GAS_PRICE and
-- REPLACEMENT_UNDERPRICED leaves the `switch` only, so the loop goes on.
pub data LoopEnd : Type 0 where
  returned fell_through : LoopEnd

abbrev retry_switch : DispatchStatus → LoopEnd → LoopEnd
retry_switch no_gas rest = returned
retry_switch low_nonce rest = returned
retry_switch _ rest = rest

unfoldable pub retry_loop : List Otx → LoopEnd
retry_loop [] = fell_through
retry_loop (v ∷ rest) =
    let after = retry_loop rest in
    if not (is_chain_error v.dispatch_status)
    then fell_through
    else retry_switch v.dispatch_status after

abbrev pub loop_result : LoopEnd → M Unit
loop_result returned = pure tt
loop_result fell_through = pure tt

module _ (env : Env) where
  unfoldable pub retry_all : List Otx → M Unit
  retry_all [] = raise no_otx_found
  retry_all (v ∷ rest) = loop_result (retry_loop (v ∷ rest))

  -- `RetrierWorker.Work`; the deferred rollback ends the transaction.
  unfoldable pub retrier_work : RetrierArgs → M Unit
  retrier_work args = do
    Pg.begin env
    otx ← Pg.get_otx_by_tracking_id env args.tracking_id
    retry_all otx
