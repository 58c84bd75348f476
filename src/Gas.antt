-- ===== src/Gas.antt =====
-- The gas oracles, internal/gas: the settings that the RPC oracle keeps, what each tick of its
-- timer makes of them, and the fixed settings of the static one. `SafeGasLimit` and
-- `SafeGasTipCap` of ethutils are arguments.
pub mod Updates
use eth_custodial.Prelude.{ℕ, ◌*◌, ◌/◌, Option, none, some, List, [], ◌∷◌}
use eth_custodial.Store.Results.{Result, ok, err, unavailable}
use eth_custodial.World.{GasSettings}

-- The answers of `eth.GasPrice` and `eth.GasTipCap` in one call.
pub record GasAnswer : Type 0 where
  pub gas_price : ℕ
  pub gas_tip_cap : ℕ

-- `updateGasPrice`: the result, and the cached settings afterwards. The number is the moment of
-- the call.
unfoldable pub update_gas_price : ℕ → Option GasAnswer → GasSettings → Result Unit × GasSettings
update_gas_price t none g = (err (unavailable t), g)
update_gas_price t (some a) g =
    (ok tt, record g { gas_fee_cap = a.gas_price * 120 / 100; gas_tip_cap = a.gas_tip_cap })

abbrev first_settings : Result Unit × GasSettings → Result GasSettings
first_settings (ok _, g) = ok g
first_settings (err e, g) = err e

-- `NewRPCGasOracle`
unfoldable pub new_rpc_gas_oracle : ℕ → ℕ → Option GasAnswer → Result GasSettings
unfolding update_gas_price
new_rpc_gas_oracle safe_gas_limit t answer = first_settings (
    update_gas_price t answer
      (record { gas_fee_cap = 0; gas_tip_cap = 0; gas_limit = safe_gas_limit }))

-- What wakes the loop of `Start`.
pub data Signal : Type 0 where
  tick : ℕ → Option GasAnswer → Signal
  stop : Signal

-- `Start`: an update that fails is logged, and the settings stay.
unfoldable pub start : List Signal → GasSettings → GasSettings
unfolding update_gas_price
start [] g = g
start (stop ∷ rest) g = g
start (tick t answer ∷ rest) g = start rest (update_gas_price t answer g).1

-- `StaticGas.GetSettings`
pub static_settings : ℕ → ℕ → GasSettings
static_settings safe_gas_tip_cap safe_gas_limit = record {
  gas_fee_cap = 15000000000;
  gas_tip_cap = safe_gas_tip_cap;
  gas_limit = safe_gas_limit;
}
