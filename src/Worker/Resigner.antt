-- ===== src/Worker/Resigner.antt =====
-- internal/worker/resigner.go: what a stuck transaction is signed again with.
pub mod Bump
use eth_custodial.Prelude.{ℕ, ◌*◌, ◌/◌, String, Bool, Option, none, some, if◌then◌else◌}
use eth_custodial.Prelude.Int.{pos}
use eth_custodial.Jobs.{Address, Bytes}
use eth_custodial.Store.Results.{
  Result, ok, err, or_error, bad_hex, bad_transaction, not_dynamic_fee, no_recipient,
}
use eth_custodial.Runtime.{Env, DynamicFeeTx, ContractExecutionTxOpts, GasTransferTxOpts}

abbrev parse_tx : {T : Type 0} → (Bytes → Option T) → Option Bytes → Result T
parse_tx f none = err bad_hex
parse_tx f (some raw) = or_error (f raw) bad_transaction

abbrev bump_fields : DynamicFeeTx → Option Address → Result ContractExecutionTxOpts
bump_fields f none = err no_recipient
bump_fields f (some to) = ok (record {
  contract_address = to;
  input_data = f.input;
  gas_fee_cap = f.gas_fee_cap * 115 / 100;
  gas_tip_cap = f.gas_tip_cap;
  gas_limit = f.gas;
  nonce = f.nonce;
})

module _ (env : Env) where
  -- `decodeTx`
  unfoldable pub decode_tx : String → Result env.Tx
  decode_tx s = parse_tx env.unmarshal_binary (env.hex_decode s)

  abbrev bump_tx : Result env.Tx → Result ContractExecutionTxOpts
  bump_tx (err e) = err e
  bump_tx (ok tx) =
      if env.is_dynamic_fee tx
      then bump_fields (env.tx_fields tx) (env.tx_fields tx).to
      else err not_dynamic_fee

  -- `bumpGas`
  unfoldable pub bump_gas : String → Result ContractExecutionTxOpts
  unfolding decode_tx
  bump_gas s = bump_tx (decode_tx s)

  -- `noopTx`: nothing, sent to nobody, to use a nonce up.
  unfoldable pub noop_tx : (gas_fee_cap gas_tip_cap nonce : ℕ) → GasTransferTxOpts
  noop_tx gas_fee_cap gas_tip_cap nonce = record {
    to = env.hex_to_address env.zero_address;
    value = pos 0;
    gas_fee_cap = gas_fee_cap;
    gas_tip_cap = gas_tip_cap;
    nonce = nonce;
  }
