-- ===== src/Worker/Unlocker/Agreement.antt =====
-- `unlockerClassifyRPCError` against `handleJSONRPCError` of internal/worker/dispatch_error.go.
use eth_custodial.Prelude.{
  ◌≡◌, String, Bool, false, ◌&&◌, ◌||◌, arith, Option, none, some, if◌then◌else◌,
}
use eth_custodial.Store.Results.{
  DispatchErr, insufficient_gas, gas_price_too_low, nonce_too_low, replacement_tx_underpriced,
  network,
}
use eth_custodial.Worker.DispatchError.{contains, handle_json_rpc_error}
use eth_custodial.Worker.Unlocker.Refusal.{
  Kind, nonce_low, gas_price, replacement_underpriced, no_gas, unknown, classify,
}

-- The unlocker's name for what the dispatcher finds in a message.
abbrev pub kind_of : Option DispatchErr → Kind
kind_of (some insufficient_gas) = no_gas
kind_of (some gas_price_too_low) = gas_price
kind_of (some nonce_too_low) = nonce_low
kind_of (some replacement_tx_underpriced) = replacement_underpriced
kind_of (some network) = unknown
kind_of none = unknown

abbrev pub is_price : String → Bool
is_price msg =
    contains msg "replacement transaction underpriced"
    || (contains msg "transaction underpriced"
        || contains msg "gas fee cap is below the minimum base fee")

agree :
    (n i r u f : Bool)
    → (n && (i || (r || (u || f)))) ≡ false
    → (i && (r || (u || f))) ≡ false
    → (if n
        then nonce_low
        else if r
        then replacement_underpriced
        else if u || f
        then gas_price
        else if i
        then no_gas
        else unknown)
      ≡ kind_of (
          if i
          then some insufficient_gas
          else if r
          then some replacement_tx_underpriced
          else if u || f
          then some gas_price_too_low
          else if n
          then some nonce_too_low
          else none)
agree n i r u f h k = ground arith

-- The unlocker and the dispatcher make the same of a message, though they ask for the phrases in
-- another order, unless it has the one for a low nonce, or the one for missing funds, beside
-- another.
pub classify-kind_of :
    (msg : String)
    → (contains msg "nonce too low" && (contains msg "insufficient funds for gas" || is_price msg))
      ≡ false
    → (contains msg "insufficient funds for gas" && is_price msg) ≡ false
    → classify msg ≡ kind_of (handle_json_rpc_error msg)
unfolding classify handle_json_rpc_error
classify-kind_of msg h k =
    agree (contains msg "nonce too low") (contains msg "insufficient funds for gas")
      (contains msg "replacement transaction underpriced") (contains msg "transaction underpriced")
      (contains msg "gas fee cap is below the minimum base fee") h k
