-- ===== src/Worker/Unlocker/Fees.antt =====
-- What a transaction that is signed again offers (`resignAndResubmit`).
use eth_custodial.Prelude.{
  ℕ, ◌+◌, ◌*◌, ◌≤◌, ◌<◌, ◌≡◌, refl, ◌⊎◌, inl, inr, Bool-cases, true, false, leb, arith,
}
use eth_custodial.World.{GasSettings}
use eth_custodial.Runtime.{DynamicFeeTx}
use eth_custodial.Worker.Unlocker.Resign.{raised_fee, raised}

-- The new fee is no lower than the old one and than the oracle's, is the oracle's if that is higher
-- than the old one, and is otherwise the whole part of 115% of the old one.
abbrev pub IsRaised : ℕ → ℕ → ℕ → Type 0
IsRaised offered old new =
    (old ≤ new)
    × (offered ≤ new)
    × (((old < offered) × (new ≡ offered))
        ⊎ ((offered ≤ old) × (new * 100 ≤ old * 115) × (old * 115 < new * 100 + 100)))

leb-≤ : (a b : ℕ) → leb a b ≡ true → a ≤ b
leb-≤ a b h = ground arith

leb-< : (a b : ℕ) → leb a b ≡ false → b < a
leb-< a b h = ground arith

raised_fee-IsRaised : (offered old : ℕ) → IsRaised offered old (raised_fee offered old)
raised_fee-IsRaised offered old = elim (Bool-cases (leb offered old)) [
  | inl t ↦
      let l = leb-≤ offered old t in
      rw t (omega arith, omega arith, inr (l, omega arith, omega arith))
  | inr f ↦ let l = leb-< offered old f in rw f (omega arith, omega arith, inl (l, refl))
]

-- A transaction that is signed again is the same call, with the same nonce, gas limit, recipient,
-- value and data, and with a fee cap and a tip cap that are raised: neither is lower than the old
-- one or than the oracle's.
pub raised_lem :
    (settings : GasSettings) (f : DynamicFeeTx)
    → let new = raised settings f in
      IsRaised settings.gas_fee_cap f.gas_fee_cap new.gas_fee_cap
      × IsRaised settings.gas_tip_cap f.gas_tip_cap new.gas_tip_cap
      × (record new { gas_fee_cap = f.gas_fee_cap; gas_tip_cap = f.gas_tip_cap } ≡ f)
unfolding raised
raised_lem settings f = (
  raised_fee-IsRaised settings.gas_fee_cap f.gas_fee_cap,
  raised_fee-IsRaised settings.gas_tip_cap f.gas_tip_cap,
  refl,
)
