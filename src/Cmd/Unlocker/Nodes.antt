-- ===== src/Cmd/Unlocker/Nodes.antt =====
-- The calls of cmd/unlocker that try one node after the other.
use Prim.Native.String.{◌++◌}
use eth_custodial.Prelude.{ℕ, ◌*◌, ◌/◌, String, Option, none, some, List, [], ◌∷◌, if◌then◌else◌}
use eth_custodial.Jobs.{Bytes, Address}
use eth_custodial.Store.Results.{all_nodes_failed}
use eth_custodial.World.{M, pure, raise, ◌>>=◌, ◌>>◌}
use eth_custodial.Runtime.{Receipt, CallResult, done, call_errors, failed}
use eth_custodial.Chain.{tick, log_sent}
use eth_custodial.Worker.DispatchError.{is_network_error}

-- A node, by its answers at the moment of the call; `none` is a call that fails.
pub record Node : Type 0 where
  pub nonce : ℕ → Address → Option ℕ
  pub gas_price_and_tip : ℕ → Option (ℕ × ℕ)
  pub receipt : ℕ → String → Option (Option Receipt)
  pub take_raw_tx : ℕ → Bytes → CallResult

module _ {A : Type 0} where
  abbrev pub answer_or : Option A → M A → M A
  answer_or none rest = rest
  answer_or (some a) rest = pure a

  -- The loop over the nodes: the first answer counts.
  unfoldable pub first_answer : (Node → ℕ → Option A) → List Node → M A
  first_answer call [] = raise all_nodes_failed
  first_answer call (n ∷ ns) =
      let rest = first_answer call ns in tick >>= λ t. answer_or (call n t) rest

-- `getNonceMultiNode`
abbrev pub get_nonce : List Node → Address → M ℕ
get_nonce nodes a = first_answer (λ n t. n.nonce t a) nodes

-- `getGasPriceMultiNode`: the fee cap is 120% of the price.
unfoldable pub get_gas_price : List Node → M (ℕ × ℕ)
get_gas_price nodes = first_answer (λ n t. n.gas_price_and_tip t) nodes >>= λ (price, tip).
    pure (price * 120 / 100, tip)

-- `getReceiptMultiNode`
abbrev pub get_receipt : List Node → String → M (Option Receipt)
get_receipt nodes hash = first_answer (λ n t. n.receipt t hash) nodes

-- The error of a send, by its text; only a network error is worth another node.
abbrev pub refused_or : CallResult → (String → M (Option String)) → M (Option String)
refused_or done next = pure none
refused_or (call_errors e) next = pure (some e.message)
refused_or (failed e) next = if is_network_error e then next e.message else pure (some e.message)

-- `sendRawTxMultiNode`, after a last error.
unfoldable pub send_from : List Node → Bytes → String → M (Option String)
send_from [] raw last = pure (some ("all nodes failed: " ++ last))
send_from (n ∷ ns) raw last =
    let next = send_from ns raw in
    tick >>= λ t. log_sent raw >> refused_or (n.take_raw_tx t raw) next

abbrev pub send_raw_tx : List Node → Bytes → M (Option String)
send_raw_tx nodes raw = send_from nodes raw "%!w(<nil>)"
