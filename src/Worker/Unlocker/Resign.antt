-- ===== src/Worker/Unlocker/Resign.antt =====
-- `resignAndResubmit` of internal/worker/unlocker.go: the same transaction with higher fees.
use eth_custodial.Prelude.{
  ℕ, ◌*◌, ◌/◌, String, Bool, false, Option, none, some, leb, ltb, if◌then◌else◌,
}
use eth_custodial.Jobs.{Address, Bytes}
use eth_custodial.Store.Types.{in_network}
use eth_custodial.Store.Tables.{Otx}
use eth_custodial.Store.Results.{
  Result, ok, err, or_error, sign_failed, marshal_failed, not_dynamic_fee, send_refused,
}
use eth_custodial.World.{M, GasSettings, pure, raise, lift, attempt, ◌>>=◌, ◌>>◌}
use eth_custodial.Runtime.{Env, DynamicFeeTx}
use eth_custodial.Chain.{get_settings, call_send_raw_tx}
use eth_custodial.Pg
use eth_custodial.Worker.Signing.{private_key_of}
use eth_custodial.Worker.Resigner.{decode_tx}
use eth_custodial.Worker.Unlocker.Refusal.{refusal}
use eth_custodial.Worker.Unlocker.Recovery.{call_nonce, check_receipt}

-- The oracle's fee, or 115% of the old fee where that is not more.
abbrev pub raised_fee : ℕ → ℕ → ℕ
raised_fee offered old = if leb offered old then old * 115 / 100 else offered

-- The transaction with the fees raised.
unfoldable pub raised : GasSettings → DynamicFeeTx → DynamicFeeTx
raised settings f = record f {
  gas_fee_cap = raised_fee settings.gas_fee_cap f.gas_fee_cap;
  gas_tip_cap = raised_fee settings.gas_tip_cap f.gas_tip_cap;
}

-- Has the chain used the nonce? A call that failed says no.
abbrev pub is_used : ℕ → Result ℕ → Bool
is_used nonce (ok n) = ltb nonce n
is_used nonce (err e) = false

module _ (env : Env) where
  unfoldable pub save_resigned : Otx → env.Tx → Bytes → M Unit
  save_resigned otx tx raw = do
    Pg.set_otx_tx env otx.id (env.hex_encode raw) (env.tx_hash tx)
    Pg.update_dispatch_tx_status env otx.id in_network
    Pg.commit env

  unfoldable pub after_resign : Otx → env.Tx → Bytes → Option String → M Unit
  after_resign otx tx raw (some msg) = raise (send_refused msg)
  after_resign otx tx raw none = do
    nonce ← attempt (call_nonce env (env.common_address otx.signer_account))
    if is_used otx.nonce nonce then check_receipt env otx else save_resigned otx tx raw

  unfoldable pub submit : Otx → DynamicFeeTx → M Unit
  submit otx fields = do
    Pg.begin env
    keypair ← Pg.load_private_key env otx.signer_account
    key ← lift (private_key_of env keypair.private)
    tx ← lift (or_error (env.sign_new_tx key fields) sign_failed)
    raw ← lift (or_error (env.marshal_binary tx) marshal_failed)
    answer ← call_send_raw_tx env raw
    after_resign otx tx raw (refusal answer)

  -- A contract creation is left alone.
  unfoldable pub resign_call : Otx → DynamicFeeTx → Bool → Option Address → M Unit
  resign_call otx f dynamic none = pure tt
  resign_call otx f dynamic (some to) =
      if dynamic
      then (get_settings >>= λ settings. submit otx (raised settings f))
      else raise not_dynamic_fee

  -- `resignAndResubmit`
  unfoldable pub resign_and_resubmit : Otx → M Unit
  resign_and_resubmit otx = do
    tx ← lift (decode_tx env otx.raw_tx)
    resign_call otx (env.tx_fields tx) (env.is_dynamic_fee tx) (env.tx_fields tx).to
