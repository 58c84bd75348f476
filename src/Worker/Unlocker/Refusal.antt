-- ===== src/Worker/Unlocker/Refusal.antt =====
-- What the unlocker makes of a node's refusal: `sendRawTx` and `unlockerClassifyRPCError` of
-- internal/worker/unlocker.go.
use Prim.Native.String.{◌++◌}
use eth_custodial.Prelude.{String, ◌||◌, Option, none, some, if◌then◌else◌}
use eth_custodial.Store.Results.{
  DispatchErr, insufficient_gas, gas_price_too_low, nonce_too_low, replacement_tx_underpriced,
  network,
}
use eth_custodial.Runtime.{CallResult, done, call_errors, failed}
use eth_custodial.Worker.DispatchError.{contains, handle_json_rpc_error, is_network_error}

-- The texts of the sentinel errors, and of `DispatchError.Error`.
abbrev pub error_text : DispatchErr → String
error_text insufficient_gas = "eth-custodial: insufficient gas"
error_text gas_price_too_low = "eth-custodial: gas price too low"
error_text nonce_too_low = "eth-custodial: nonce too low"
error_text replacement_tx_underpriced = "eth-custodial: replacement tx underpriced"
error_text network = "eth-custodial: network related error"

abbrev pub dispatch_text : DispatchErr → String → String
dispatch_text e original = error_text e ++ (" (original rpc error: " ++ (original ++ ")"))

abbrev pub rpc_text : Option DispatchErr → String → String
rpc_text none msg = msg
rpc_text (some e) msg = dispatch_text e msg

-- The error of `sendRawTx`, by its text.
unfoldable pub refusal : CallResult → Option String
unfolding handle_json_rpc_error is_network_error
refusal done = none
refusal (call_errors e) =
    some
      (if e.is_rpc_error then rpc_text (handle_json_rpc_error e.message) e.message else e.message)
refusal (failed e) =
    some (if is_network_error e then dispatch_text network e.message else e.message)

pub data Kind : Type 0 where
  nonce_low gas_price replacement_underpriced no_gas unknown : Kind

-- `unlockerClassifyRPCError`
unfoldable pub classify : String → Kind
classify msg =
    if contains msg "nonce too low"
    then nonce_low
    else if contains msg "replacement transaction underpriced"
    then replacement_underpriced
    else if contains msg "transaction underpriced"
        || contains msg "gas fee cap is below the minimum base fee"
    then gas_price
    else if contains msg "insufficient funds for gas"
    then no_gas
    else unknown
