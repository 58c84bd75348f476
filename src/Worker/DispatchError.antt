-- ===== src/Worker/DispatchError.antt =====
-- internal/worker/dispatch_error.go: what the answer of a node means for a dispatch.
use eth_custodial.Prelude.{String, Bool, true, false, ◌||◌, Option, none, some, if◌then◌else◌}
use text.Mathlib.Text.{find?}
use eth_custodial.Store.Results.{
  DispatchErr, insufficient_gas, gas_price_too_low, nonce_too_low, replacement_tx_underpriced,
  network,
}
use eth_custodial.Runtime.{CallResult, done, call_errors, failed, TransportError}

-- `strings.Contains`
unfoldable pub contains : String → String → Bool
contains s part = elim (find? s part) [ none ↦ false | some _ ↦ true ]

-- `handleJSONRPCError`
unfoldable pub handle_json_rpc_error : String → Option DispatchErr
handle_json_rpc_error msg =
    if contains msg "insufficient funds for gas"
    then some insufficient_gas
    else if contains msg "replacement transaction underpriced"
    then some replacement_tx_underpriced
    else if contains msg "transaction underpriced"
        || contains msg "gas fee cap is below the minimum base fee"
    then some gas_price_too_low
    else if contains msg "nonce too low"
    then some nonce_too_low
    else none

-- `handleNetworkError` of an error that is not nil: a `DispatchError`, or the error as it is.
unfoldable pub is_network_error : TransportError → Bool
is_network_error e =
    e.is_net_error || e.is_url_error || contains e.message "timeout" || e.is_deadline_exceeded

-- The error of a dispatch worker's `sendRawTx`.
pub data SendError : Type 0 where
  sent_ok : SendError
  classified : DispatchErr → SendError
  unclassified : SendError

abbrev classify_rpc : Option DispatchErr → SendError
classify_rpc none = sent_ok
classify_rpc (some e) = classified e

-- `DisptachWorker.sendRawTx`: an entry of `CallErrors` that is no `rpc.Error`, or that
-- `handleJSONRPCError` does not know, falls through to `return nil`.
unfoldable pub send_error : CallResult → SendError
unfolding handle_json_rpc_error is_network_error
send_error done = sent_ok
send_error (call_errors e) =
    if e.is_rpc_error then classify_rpc (handle_json_rpc_error e.message) else sent_ok
send_error (failed e) = if is_network_error e then classified network else unclassified
