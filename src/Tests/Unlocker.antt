-- ===== src/Tests/Unlocker.antt =====
-- The theorems on the unlocker at a concrete service.
use eth_custodial.Prelude.{ℕ, ◌≡◌, refl, true, false, Option, none, some, List, [], ◌∷◌}
use eth_custodial.Store.Types.{success, pending, token_transfer}
use eth_custodial.Store.Tables.{Otx}
use eth_custodial.Store.Results.{ok}
use eth_custodial.World.{World, pure, ◌>>=◌}
use eth_custodial.Chain.{tick}
use eth_custodial.Store.Queries.{has_dispatch}
use eth_custodial.Store.Sound.Resent.{IsSameBook}
use eth_custodial.Runtime.{Env, CallError, DynamicFeeTx, call_errors}
use eth_custodial.Worker.DispatchError.{contains, handle_json_rpc_error}
use eth_custodial.Worker.Unlocker.{process_otx, unlocker_work}
use eth_custodial.Worker.Unlocker.Refusal.{refusal, classify}
use eth_custodial.Worker.Unlocker.Resign.{raised}
use eth_custodial.Worker.Unlocker.Recovery.{scan_txs, scan_blocks, scan_anchor}
use eth_custodial.Worker.Unlocker.Fees.{IsRaised, raised_lem}
use eth_custodial.Worker.Unlocker.Scan.{Finds, IsFoundBetween, scan_blocks-Finds}
use eth_custodial.Worker.Unlocker.Scan.Range.{with_blocks, IsNear, IsSearched, scan_anchor_lem}
use eth_custodial.Worker.Unlocker.Outcome.{Marks, settled_status, process_otx-Marks}
use eth_custodial.Worker.Unlocker.Agreement.{kind_of, classify-kind_of}
use eth_custodial.Worker.Safety.Unlocks.{unlocker_work-IsSameBook}
use eth_custodial.Tests.{sample_env, sample_world, sample_db, no_fields}

-- The node has seen the nonce, and has a receipt.
abbrev nonce_used : CallError
nonce_used = record { is_rpc_error = false; message = "nonce too low" }

abbrev pub mined_env : Env
mined_env = record sample_env {
  now = λ t. 2000;
  tx_fields = λ tx. record no_fields { nonce = tx };
  send_raw_tx = λ t raw. call_errors nonce_used;
  tx_receipt = λ t h. some (some (record { status = 1; block_number = some 9 }));
  block_txs = λ t n. some (some (4 ∷ []));
}

abbrev pub stuck_otx : Otx
stuck_otx = record {
  id = 1;
  tracking_id = "t0";
  otx_type = token_transfer;
  signer_account = "0xalice";
  raw_tx = "0x04";
  tx_hash = "0xhash";
  nonce = 4;
  replaced = false;
  created_at = 900;
  updated_at = 900;
  dispatch_status = pending;
}

unlocker_work-IsSameBook_example :
    IsSameBook sample_db (unlocker_work mined_env sample_world).1.committed
unlocker_work-IsSameBook_example = unlocker_work-IsSameBook mined_env sample_world

has_row : has_dispatch 1 sample_db.dispatch ≡ true
unfolding has_dispatch
has_row = refl

is_mined :
    settled_status
      (refusal (call_errors nonce_used))
      (some (some (record { status = 1; block_number = some 9 })))
    ≡ some success
unfolding refusal classify contains
is_mined = refl

process_otx-Marks_example :
    Marks stuck_otx success ((7 ∷ []) ∷ []) sample_db (process_otx mined_env stuck_otx sample_world)
process_otx-Marks_example =
    process_otx-Marks mined_env (λ t. refl) stuck_otx (7 ∷ []) success sample_world refl has_row
      is_mined

scan_blocks-Finds_example :
    Finds
      (IsFoundBetween mined_env stuck_otx 6 4)
      (scan_blocks mined_env stuck_otx 6 4 sample_world).0
scan_blocks-Finds_example = scan_blocks-Finds mined_env stuck_otx 6 4 sample_world

-- The node has none of the blocks.
abbrev barren_env : Env
barren_env = record mined_env { block_txs = λ t n. some none }

finds_nothing : (scan_anchor barren_env stuck_otx 9 sample_world).0 ≡ ok none
unfolding scan_anchor scan_blocks scan_txs tick ◌>>=◌ pure
finds_nothing = refl

scan_anchor_lem_example :
    ((f : ℕ → ℕ → Option (Option (List ℕ)))
      → ((t k : ℕ) → IsNear 9 k → f t k ≡ some none)
      → scan_anchor (with_blocks barren_env f) stuck_otx 9 ≡ scan_anchor barren_env stuck_otx 9)
    × ((w : World)
        → (scan_anchor barren_env stuck_otx 9 w).0 ≡ ok none
        → (k : ℕ) → IsNear 9 k
        → IsSearched barren_env stuck_otx k)
scan_anchor_lem_example = scan_anchor_lem barren_env stuck_otx 9

abbrev old_fields : DynamicFeeTx
old_fields = record no_fields { gas_fee_cap = 20; gas_tip_cap = 1 }

raised_lem_example :
    let new = raised sample_world.gas old_fields in
    IsRaised 10 20 new.gas_fee_cap
    × IsRaised 1 1 new.gas_tip_cap
    × (record new { gas_fee_cap = 20; gas_tip_cap = 1 } ≡ old_fields)
raised_lem_example = raised_lem sample_world.gas old_fields

classify-kind_of_example :
    classify "nonce too low" ≡ kind_of (handle_json_rpc_error "nonce too low")
unfolding contains
classify-kind_of_example = classify-kind_of "nonce too low" refl refl
