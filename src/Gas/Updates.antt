-- ===== src/Gas/Updates.antt =====
-- The settings of the RPC gas oracle (internal/gas/rpc.go) over time.
use eth_custodial.Prelude.{ℕ, ◌*◌, ◌/◌, ◌≤◌, ◌≡◌, refl, ◌∙◌, ap, arith, none, some, List, [], ◌∷◌}
use eth_custodial.Store.Results.{ok}
use eth_custodial.World.{GasSettings}
use eth_custodial.Gas.{GasAnswer, Signal, tick, stop, new_rpc_gas_oracle, start}

-- The last answer that arrived before the oracle was stopped.
pub latest : List Signal → GasAnswer → GasAnswer
latest [] a = a
latest (stop ∷ rest) a = a
latest (tick t none ∷ rest) a = latest rest a
latest (tick t (some b) ∷ rest) a = latest rest b

abbrev pub settings_for : ℕ → GasAnswer → GasSettings
settings_for safe_gas_limit a = record {
  gas_fee_cap = a.gas_price * 120 / 100;
  gas_tip_cap = a.gas_tip_cap;
  gas_limit = safe_gas_limit;
}

start-latest :
    (limit : ℕ) (signals : List Signal) (a : GasAnswer)
    → start signals (settings_for limit a) ≡ settings_for limit (latest signals a)
unfolding start latest
start-latest limit [] a = refl
start-latest limit (stop ∷ rest) a = refl
start-latest limit (tick t none ∷ rest) a = start-latest limit rest a
start-latest limit (tick t (some b) ∷ rest) a = start-latest limit rest b

made :
    (limit t : ℕ) (a : GasAnswer) (g : GasSettings)
    → new_rpc_gas_oracle limit t (some a) ≡ ok g
    → g ≡ settings_for limit a
unfolding new_rpc_gas_oracle
made limit t a g h = cc

-- An oracle that was made from an answer of the node offers, after any run of its loop, the
-- settings of the last answer that arrived before it was stopped: the tip of that answer, a fee
-- cap that is the whole part of 120% of its price and at least the price, and the safe gas limit.
-- Updates that fail change nothing.
pub start_lem :
    (limit t : ℕ) (a : GasAnswer) (g : GasSettings) (signals : List Signal)
    → new_rpc_gas_oracle limit t (some a) ≡ ok g
    → (start signals g ≡ settings_for limit (latest signals a))
      × ((latest signals a).gas_price ≤ (start signals g).gas_fee_cap)
start_lem limit t a g signals h =
    let e : start signals g ≡ settings_for limit (latest signals a) =
      ap (start signals) (made limit t a g h) ∙ start-latest limit signals a in
    (e, rw e (omega arith))
