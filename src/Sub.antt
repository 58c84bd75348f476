-- ===== src/Sub.antt =====
-- internal/sub: what the chain tracker reports of a transaction, sub.go and handler.go.
pub mod Safety
pub mod Settle
pub mod Outcome
use eth_custodial.Prelude.{String, Bool, true, false, ◌&&◌, List, [], ◌∷◌, if◌then◌else◌, str_eq}
use eth_custodial.Jobs.{Bytes}
use eth_custodial.Store.Types.{DispatchStatus, success, reverted}
use eth_custodial.Store.Tables.{Otx}
use eth_custodial.Store.Results.{Result, ok, err, or_error, no_rows, bad_json, panicked}
use eth_custodial.World.{World, M, pure, raise, lift, ignore_error, attempt, ◌>>=◌, ◌>>◌}
use eth_custodial.Runtime.{Env, ChainEvent}
use eth_custodial.Pg

abbrev pub outcome : ChainEvent → DispatchStatus
outcome e = if e.success then success else reverted

-- `chainEvent.Payload["account"].(string)`: no such string is a panic.
abbrev pub account_of : ChainEvent → Result String
account_of e = or_error e.account panicked

module _ (env : Env) where
  -- A registration that succeeded activates the account's key.
  unfoldable pub activate_account : String → ChainEvent → M Unit
  activate_account subject e =
      if e.success && str_eq subject "TRACKER.CUSTODIAL_REGISTRATION"
      then (do account ← lift (account_of e); Pg.activate_key_pair env account)
      else pure tt

  unfoldable pub submit_referral : M Unit
  submit_referral =
      if env.activate_divvi_submissions then ignore_error (Pg.external env) else pure tt

  unfoldable pub update_otx : String → ChainEvent → Otx → M Unit
  update_otx subject e otx = do
    activate_account subject e
    Pg.update_dispatch_tx_status env otx.id (outcome e)
    ignore_error (Pg.send env (record { tracking_id = otx.tracking_id; status = outcome e }))
    submit_referral
    Pg.commit env

  -- A hash that no transaction of ours has is no error.
  abbrev pub with_otx : String → ChainEvent → Result Otx → M Unit
  with_otx subject e (ok otx) = update_otx subject e otx
  with_otx subject e (err no_rows) = pure tt
  with_otx subject e (err x) = raise x

  -- `processEvent`
  unfoldable pub process_event : String → Bytes → M Unit
  process_event subject msg = do
    e ← lift (or_error (env.unmarshal_event msg) bad_json)
    Pg.begin env
    otx ← attempt (Pg.get_otx_by_tx_hash env e.tx_hash)
    with_otx subject e otx

-- What the message iterator returns.
pub data Incoming : Type 0 where
  message : String → Bytes → Incoming
  iterator_error : Incoming
  iterator_closed : Incoming

abbrev pub is_ok : Result Unit → Bool
is_ok (ok _) = true
is_ok (err _) = false

-- The loop of `Process`: each message is acknowledged (`true`) or refused (`false`), until the
-- iterator is closed.
unfoldable pub process : Env → List Incoming → World → List Bool × World
process env [] w = ([], w)
process env (iterator_closed ∷ rest) w = ([], w)
process env (iterator_error ∷ rest) w = process env rest w
process env (message subject msg ∷ rest) w =
    let (r, w') = process_event env subject msg w in
    let (acks, w'') = process env rest w' in (is_ok r ∷ acks, w'')
