-- ===== src/Cmd/Unlocker/Resign.antt =====
-- `resignAndSubmit`, `resignTx`, and the writes of cmd/unlocker.
use Prim.Native.String.{◌++◌}
use eth_custodial.Prelude.{ℕ, String, Option, none, some, List}
use eth_custodial.Jobs.{Bytes}
use eth_custodial.Store.Types.{DispatchStatus, in_network}
use eth_custodial.Store.Tables.{Otx}
use eth_custodial.Store.Results.{
  Result, or_error, no_recipient, sign_failed, marshal_failed, bad_hex, send_refused, panicked, err,
}
use eth_custodial.World.{M, pure, raise, lift, ◌>>=◌, ◌>>◌}
use eth_custodial.Runtime.{Env, DynamicFeeTx, Receipt}
use eth_custodial.Pg
use eth_custodial.Worker.Signing.{private_key_of}
use eth_custodial.Worker.Resigner.{decode_tx}
use eth_custodial.Worker.Unlocker.Recovery.{receipt_status}
use eth_custodial.Worker.Unlocker.Resign.{raised_fee}
use eth_custodial.Cmd.Unlocker.Nodes.{Node, get_gas_price, get_receipt, send_raw_tx}

module _ (env : Env) where
  -- `updateDispatchStatus`
  unfoldable pub update_dispatch_status : ℕ → DispatchStatus → M Unit
  update_dispatch_status id s = do
    Pg.begin env
    Pg.update_dispatch_tx_status env id s
    Pg.commit env

  -- `updateOTXAndDispatch`
  unfoldable pub update_otx_and_dispatch : ℕ → String → String → M Unit
  update_otx_and_dispatch id raw hash = do
    Pg.begin env
    Pg.set_otx_tx env id raw hash
    Pg.update_dispatch_tx_status env id in_network
    Pg.commit env

  -- A receipt that is nil is a panic.
  abbrev pub update_by : ℕ → Option Receipt → M Unit
  update_by id none = raise panicked
  update_by id (some r) = update_dispatch_status id (receipt_status r)

  abbrev pub sign_for : env.PrivateKey → DynamicFeeTx → Option Bytes → Result env.Tx
  sign_for key f none = err no_recipient
  sign_for key f (some to) = or_error (env.sign_new_tx key f) sign_failed

  -- `resignTx`: the text and the hash of the new transaction.
  unfoldable pub resign_tx : env.PrivateKey → DynamicFeeTx → M (String × String)
  resign_tx key f = do
    tx ← lift (sign_for key f f.to)
    raw ← lift (or_error (env.marshal_binary tx) marshal_failed)
    pure (env.hex_encode raw, env.tx_hash tx)

  abbrev pub submitted : String × String → Option String → M (String × String)
  submitted new none = pure new
  submitted new (some msg) = raise (send_refused ("submit re-signed tx: " ++ msg))

  abbrev pub with_fees : ℕ × ℕ → DynamicFeeTx → DynamicFeeTx
  with_fees (cap, tip) f = record f {
    gas_fee_cap = raised_fee cap f.gas_fee_cap;
    gas_tip_cap = raised_fee tip f.gas_tip_cap;
  }

module _ (env : Env) (nodes : List Node) where
  -- `checkReceiptAndUpdate`
  unfoldable pub check_receipt_and_update : Otx → M Unit
  check_receipt_and_update otx = get_receipt nodes otx.tx_hash >>= update_by env otx.id

  -- `resignAndSubmit`
  unfoldable pub resign_and_submit : Otx → String → M (String × String)
  resign_and_submit otx account = do
    tx ← lift (decode_tx env otx.raw_tx)
    fees ← get_gas_price nodes
    Pg.begin env
    keypair ← Pg.load_private_key env account
    key ← lift (private_key_of env keypair.private)
    Pg.commit env
    new ← resign_tx env key (with_fees env fees (env.tx_fields tx))
    raw ← lift (or_error (env.hex_decode new.0) bad_hex)
    answer ← send_raw_tx nodes raw
    submitted env new answer
