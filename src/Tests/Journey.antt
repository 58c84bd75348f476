-- ===== src/Tests/Journey.antt =====
-- The life of a transfer at the concrete service: sent twice, then reported.
use eth_custodial.Prelude.{◌≡◌, refl, true, false, none, some, [], ◌∷◌, arith}
use eth_custodial.Prelude.Int.{pos}
use eth_custodial.Jobs.{token_transfer, dispatch}
use eth_custodial.Store.Types.{success}
use eth_custodial.Store.Results.{err, no_rows}
use eth_custodial.Store.Queries
use eth_custodial.Store.Selects
use eth_custodial.Store.Statuses.{status_of}
use eth_custodial.Runtime.{Env, ChainEvent}
use eth_custodial.Chain.{string_to_big_int, add_referral_tag}
use eth_custodial.Worker.Signing.{sign_call}
use eth_custodial.Worker.Issue.Completion.{Transferable, transferred_db, new_row}
use eth_custodial.Server.{job, report, act, history}
use eth_custodial.Server.Journey.{transfer_dispatch, transfer_settles}
use eth_custodial.Tests.{sample_env, sample_world, sample_db, sample_transfer}

-- Transactions are hashed apart from the one that is stored. The report names no account.
abbrev new_report : ChainEvent
new_report = record { success = true; tx_hash = "0xnew"; account = none }

abbrev new_env : Env
new_env = record sample_env {
  tx_hash = λ tx. "0xnew";
  hex_decode = λ s. some (5 ∷ []);
  unmarshal_event = λ b. some new_report;
}

can_transfer : Transferable new_env sample_transfer sample_world
unfolding Queries.keys_of Queries.next_nonce_of Queries.has_otx Queries.has_dispatch_id
    string_to_big_int sign_call add_referral_tag
can_transfer = record {
  sender = _;
  key = tt;
  nonce = 5;
  amount = pos 1000;
  input = [];
  tx = 5;
  raw = 5 ∷ [];
  stored = refl;
  next = refl;
  small = omega arith;
  parsed = refl;
  number = refl;
  encoded = refl;
  signed = refl;
  marshalled = refl;
  new_otx = refl;
  new_dispatch = refl;
}

untracked : Queries.has_dispatch 2 sample_db.dispatch ≡ false
unfolding Queries.has_dispatch
untracked = refl

unseen : Selects.get_otx_by_tx_hash new_env.int_text "0xnew" sample_db ≡ err no_rows
unfolding Selects.get_otx_by_tx_hash
unseen = refl

transfer_settles_example :
    let attempt =
      job (dispatch (transfer_dispatch new_env sample_transfer sample_world can_transfer)) in
    let signed = act new_env (job (token_transfer sample_transfer)) sample_world in
    let posted = history new_env (attempt ∷ attempt ∷ []) signed in
    let settled = act new_env (report "TRACKER.TOKEN_TRANSFER" []) posted in
    (signed.committed ≡ transferred_db new_env sample_transfer sample_world can_transfer)
    × (posted.sent ≡ (5 ∷ []) ∷ (5 ∷ []) ∷ [])
    × (status_of 2 settled.committed.dispatch ≡ some success)
    × (settled.committed.otx
        ≡ new_row new_env sample_transfer sample_world can_transfer ∷ sample_db.otx)
unfolding can_transfer
transfer_settles_example =
    transfer_settles new_env sample_transfer "TRACKER.TOKEN_TRANSFER" [] new_report 2 sample_world
      can_transfer (λ t. refl) refl untracked unseen refl (λ t. cc) refl
