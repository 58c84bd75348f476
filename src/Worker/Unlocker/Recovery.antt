-- ===== src/Worker/Unlocker/Recovery.antt =====
-- `checkReceipt`, `recoverOrphanedNonce` and `setStatus` of internal/worker/unlocker.go.
use eth_custodial.Prelude.{
  ℕ, zero, suc, ◌+◌, ◌-◌, String, Bool, false, ◌&&◌, Option, none, some, List, [], ◌∷◌, ltb, ◌==◌,
  if◌then◌else◌,
}
use eth_custodial.Jobs.{Address}
use eth_custodial.Store.Types.{DispatchStatus, success, reverted}
use eth_custodial.Store.Tables.{Otx}
use eth_custodial.Store.Results.{Result, ok, err, or_error, unavailable, panicked}
use eth_custodial.Store.Unlocks.{get_anchor_hash}
use eth_custodial.World.{M, pure, raise, lift, attempt, ◌>>=◌, ◌>>◌}
use eth_custodial.Runtime.{Env, Receipt}
use eth_custodial.Chain.{tick}
use eth_custodial.Pg

abbrev pub receipt_status : Receipt → DispatchStatus
receipt_status r = if r.status == 1 then success else reverted

-- The first block that is scanned.
abbrev pub scan_from : ℕ → ℕ
scan_from anchor = if ltb 5 anchor then anchor - 5 else anchor

-- What the scan is to find: the hash of the transaction that used the nonce, and its status.
pub record Found : Type 0 where
  pub hash : String
  pub status : DispatchStatus

module _ (env : Env) where
  unfoldable pub call_nonce : Address → M ℕ
  call_nonce a = do t ← tick; lift (or_error (env.nonce_at t a) (unavailable t))

  unfoldable pub set_status : ℕ → DispatchStatus → M Unit
  set_status id s = do Pg.begin env; Pg.update_dispatch_tx_status env id s; Pg.commit env

  abbrev pub is_from : Option String → String → Bool
  is_from none account = false
  is_from (some s) account = env.equal_fold s account

  -- Is this the account's transaction with the nonce?
  abbrev pub is_candidate : Otx → env.Tx → Bool
  is_candidate otx tx =
      (env.tx_fields tx).nonce == otx.nonce && is_from (env.sender tx) otx.signer_account

  abbrev pub found_or : env.Tx → Option (Option Receipt) → M (Option Found) → M (Option Found)
  found_or tx none rest = rest
  found_or tx (some none) rest = rest
  found_or tx (some (some r)) rest =
      pure (some (record { hash = env.tx_hash tx; status = receipt_status r }))

  unfoldable pub scan_txs : Otx → List env.Tx → M (Option Found)
  scan_txs otx [] = pure none
  scan_txs otx (tx ∷ txs) =
      let rest = scan_txs otx txs in
      if is_candidate otx tx
      then (tick >>= λ t. found_or tx (env.tx_receipt t (env.tx_hash tx)) rest)
      else rest

  -- A block that cannot be had is passed over.
  abbrev pub txs_of : Option (Option (List env.Tx)) → List env.Tx
  txs_of none = []
  txs_of (some none) = []
  txs_of (some (some txs)) = txs

  abbrev pub stop_or : Option Found → M (Option Found) → M (Option Found)
  stop_or none rest = rest
  stop_or (some f) rest = pure (some f)

  -- The loop over `n` blocks from a number on.
  unfoldable pub scan_blocks : Otx → ℕ → ℕ → M (Option Found)
  scan_blocks otx zero from = pure none
  scan_blocks otx (suc n) from =
      let rest = scan_blocks otx n (from + 1) in
      tick >>= λ t. scan_txs otx (txs_of (env.block_txs t from)) >>= λ f. stop_or f rest

  unfoldable pub save_found : Otx → Option Found → M Unit
  save_found otx none = pure tt
  save_found otx (some f) = do
    Pg.begin env
    Pg.set_otx_hash env otx.id f.hash
    Pg.update_dispatch_tx_status env otx.id f.status
    Pg.commit env

  -- The loop from the block that `scan_from` gives to the anchor's.
  unfoldable pub scan_anchor : Otx → ℕ → M (Option Found)
  scan_anchor otx b = scan_blocks otx (b + 1 - scan_from b) (scan_from b)

  -- A receipt without a block number is a panic.
  unfoldable pub from_anchor : Otx → Option ℕ → M Unit
  from_anchor otx none = raise panicked
  from_anchor otx (some b) = do f ← scan_anchor otx b; save_found otx f

  abbrev pub with_anchor : Otx → Option (Option Receipt) → M Unit
  with_anchor otx none = pure tt
  with_anchor otx (some none) = pure tt
  with_anchor otx (some (some r)) = from_anchor otx r.block_number

  unfoldable pub find_anchor : Otx → Result String → M Unit
  find_anchor otx (err e) = pure tt
  find_anchor otx (ok hash) = do t ← tick; with_anchor otx (env.tx_receipt t hash)

  -- `recoverOrphanedNonce`
  unfoldable pub recover_orphaned_nonce : Otx → M Unit
  recover_orphaned_nonce otx = do
    anchor ← attempt (Pg.query env (get_anchor_hash otx.signer_account (otx.nonce + 1)))
    find_anchor otx anchor

  unfoldable pub with_receipt : Otx → Option Receipt → M Unit
  with_receipt otx none = do
    nonce ← call_nonce (env.common_address otx.signer_account)
    if ltb otx.nonce nonce then recover_orphaned_nonce otx else pure tt
  with_receipt otx (some r) = set_status otx.id (receipt_status r)

  -- `checkReceipt`
  unfoldable pub check_receipt : Otx → M Unit
  check_receipt otx = do
    t ← tick
    r ← lift (or_error (env.tx_receipt t otx.tx_hash) (unavailable t))
    with_receipt otx r
