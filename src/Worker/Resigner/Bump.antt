-- ===== src/Worker/Resigner/Bump.antt =====
-- `bumpGas` of internal/worker/resigner.go on a transaction that it can read.
use eth_custodial.Prelude.{◌/◌, ◌+◌, ◌*◌, ◌≤◌, ◌<◌, ◌≡◌, refl, arith, String, true, some}
use eth_custodial.Jobs.{Address}
use eth_custodial.Store.Results.{ok}
use eth_custodial.Runtime.{Env, ContractExecutionTxOpts}
use eth_custodial.Worker.Resigner.{decode_tx, bump_gas}

-- For a text that decodes to a dynamic fee transaction with a recipient, `bumpGas` returns options
-- with the same recipient, input, gas limit, tip and nonce, and with the whole part of 115% of the
-- fee cap, which is at least the old one.
pub bump_gas_replaces :
    (env : Env) (s : String) (tx : env.Tx) (to : Address)
    → decode_tx env s ≡ ok tx
    → env.is_dynamic_fee tx ≡ true
    → (env.tx_fields tx).to ≡ some to
    → (o : ContractExecutionTxOpts) × (bump_gas env s ≡ ok o)
      × (o.contract_address ≡ to)
      × (o.input_data ≡ (env.tx_fields tx).input)
      × (o.gas_limit ≡ (env.tx_fields tx).gas)
      × (o.gas_tip_cap ≡ (env.tx_fields tx).gas_tip_cap)
      × (o.nonce ≡ (env.tx_fields tx).nonce)
      × (o.gas_fee_cap * 100 ≤ (env.tx_fields tx).gas_fee_cap * 115)
      × ((env.tx_fields tx).gas_fee_cap * 115 < o.gas_fee_cap * 100 + 100)
      × ((env.tx_fields tx).gas_fee_cap ≤ o.gas_fee_cap)
unfolding bump_gas
bump_gas_replaces env s tx to d f r = (
  record {
    contract_address = to;
    input_data = (env.tx_fields tx).input;
    gas_fee_cap = (env.tx_fields tx).gas_fee_cap * 115 / 100;
    gas_tip_cap = (env.tx_fields tx).gas_tip_cap;
    gas_limit = (env.tx_fields tx).gas;
    nonce = (env.tx_fields tx).nonce;
  },
  rw (bump_gas, d, f, r) refl,
  refl,
  refl,
  refl,
  refl,
  refl,
  omega arith,
  omega arith,
  omega arith,
)
