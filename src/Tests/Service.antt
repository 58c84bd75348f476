-- ===== src/Tests/Service.antt =====
-- The theorems on the workers, the subscriber and the service at a concrete service.
use eth_custodial.Prelude.{
  ℕ, ◌+◌, ◌*◌, ◌≤◌, ◌<◌, ◌≡◌, refl, inl, true, false, some, none, List, [], ◌∷◌, leb,
}
use eth_custodial.Prelude.Int.{pos}
use eth_custodial.Api
use eth_custodial.Api.{api}
use eth_custodial.Tests.Api.{sample_token, sample_request}
use eth_custodial.Jobs.{unlocker, token_transfer, dispatch}
use eth_custodial.Store.Types
use eth_custodial.Store.Types.{in_network, pending}
use eth_custodial.Store.Tables.{Otx}
use eth_custodial.Runtime.{Env, ChainEvent}
use eth_custodial.Store.Results.{ok, err, unavailable, no_rows}
use eth_custodial.Store.Queries
use eth_custodial.Store.Selects
use eth_custodial.Store.Sound.{IsSound}
use eth_custodial.Store.Statuses.{status_of}
use eth_custodial.World.{◌>>=◌, pure, raise, lift, gets, ignore_error, attempt}
use eth_custodial.Pg
use eth_custodial.Chain.{get_settings, string_to_big_int, add_referral_tag}
use eth_custodial.Chain.Amount.{string_to_big_int_bump}
use eth_custodial.Worker.Signing.{sign_call, record_tx, announce}
use eth_custodial.Worker.Transfers.{token_transfer_work}
use eth_custodial.Worker.Issue.{OneIssued}
use eth_custodial.Worker.Issue.Signers.{TransferCall, transfer_jobs, token_transfer_work-OneIssued}
use eth_custodial.Worker.DispatchError.{SendError, send_error}
use eth_custodial.Worker.Dispatch.{dispatch_work, retrier_work}
use eth_custodial.World.Inert.{IsInvisible}
use eth_custodial.Worker.Dispatch.Retrier.{retrier_work-IsInvisible}
use eth_custodial.Worker.Dispatch.Outcome.{
  after_answer, dispatch_work_lem, dispatch_work_unknown_refusal,
}
use eth_custodial.Sub.{process_event, update_otx, activate_account, submit_referral}
use eth_custodial.Sub.Outcome.{process_event_failure}
use eth_custodial.Sub.Settle.{activated, settled, process_event_settles, process_event_unknown}
use eth_custodial.Server.{Action, job, report, request, work, history}
use eth_custodial.Server.Safety.{history-IsSound, signing_failure}
use eth_custodial.Tests.{
  sample_env, sample_world, sample_db, sample_transfer, sample_dispatch, refusal, refusing_env,
  failing_env,
}
use eth_custodial.Tests.Store.{is_tracked, sample_db-IsSound}

abbrev sample_actions : List Action
sample_actions =
    job (token_transfer sample_transfer)
    ∷ job (dispatch sample_dispatch)
    ∷ report "TRACKER.TOKEN_TRANSFER" []
    ∷ request (api sample_token (Api.token_transfer (some sample_request)))
    ∷ job unlocker
    ∷ []

history-IsSound_example : IsSound (history sample_env sample_actions sample_world).committed
history-IsSound_example = history-IsSound sample_env sample_actions sample_world sample_db-IsSound

-- The transfer completes.
transfer_completes : (token_transfer_work sample_env sample_transfer sample_world).0 ≡ ok tt
unfolding token_transfer_work Pg.begin Pg.external Pg.moment Pg.begin_at Pg.open_tx
    Pg.load_private_key Pg.read Pg.acquire_nonce Pg.write_returning Pg.insert_otx Pg.write
    Pg.next_otx_id Pg.insert_dispatch_tx Pg.next_dispatch_id Pg.insert_many_tx Pg.send Pg.add_event
    Pg.commit Pg.publish_working ◌>>=◌ pure raise lift gets ignore_error attempt Queries.load_key
    Queries.acquire_nonce Queries.insert_otx Queries.insert_dispatch get_settings string_to_big_int
    add_referral_tag sign_call record_tx announce
transfer_completes = refl

token_transfer_work-OneIssued_example :
    OneIssued "0xalice" "t1" Types.token_transfer
      (TransferCall sample_env sample_transfer)
      (transfer_jobs "t1" "0xalice")
      sample_db
      (token_transfer_work sample_env sample_transfer sample_world).1.committed
token_transfer_work-OneIssued_example =
    token_transfer_work-OneIssued sample_env sample_transfer sample_world transfer_completes

-- The commit is the eighth call, and fails.
commit_fails :
    (work failing_env (token_transfer sample_transfer) sample_world).0 ≡ err (unavailable 7)
unfolding work token_transfer_work Pg.begin Pg.external Pg.moment Pg.begin_at Pg.open_tx
    Pg.load_private_key Pg.read Pg.acquire_nonce Pg.write_returning Pg.insert_otx Pg.write
    Pg.next_otx_id Pg.insert_dispatch_tx Pg.next_dispatch_id Pg.insert_many_tx Pg.send Pg.add_event
    Pg.commit Pg.publish_working ◌>>=◌ pure raise lift gets ignore_error attempt Queries.load_key
    Queries.acquire_nonce Queries.insert_otx Queries.insert_dispatch get_settings string_to_big_int
    add_referral_tag sign_call record_tx announce
commit_fails = refl

signing_failure_example :
    (work failing_env (token_transfer sample_transfer) sample_world).1.committed ≡ sample_db
signing_failure_example =
    signing_failure failing_env (token_transfer sample_transfer) sample_world refl sample_db-IsSound
      commit_fails

dispatch_work_lem_example :
    ((dispatch_work sample_env sample_dispatch sample_world).0 ≡ ok tt)
    × ((dispatch_work sample_env sample_dispatch sample_world).1.committed
        ≡ after_answer sample_dispatch 1001 SendError.sent_ok sample_db)
    × ((dispatch_work sample_env sample_dispatch sample_world).1.sent ≡ (7 ∷ []) ∷ [])
unfolding send_error
dispatch_work_lem_example =
    dispatch_work_lem sample_env sample_dispatch (7 ∷ []) sample_world (λ t. refl) refl is_tracked

dispatch_work_unknown_refusal_example :
    ((dispatch_work refusing_env sample_dispatch sample_world).0 ≡ ok tt)
    × (status_of 1 (dispatch_work refusing_env sample_dispatch sample_world).1.committed.dispatch
        ≡ some in_network)
dispatch_work_unknown_refusal_example =
    dispatch_work_unknown_refusal refusing_env sample_dispatch (7 ∷ []) refusal sample_world
      (λ t. refl) refl is_tracked refl (inl refl)

string_to_big_int_bump_example :
    (b : ℕ) × (string_to_big_int sample_env "1000" true ≡ ok (pos b))
    × (string_to_big_int sample_env "1000" false ≡ ok (pos 1000))
    × (1000 ≤ b)
    × (b * 100 ≤ 1000 * 105)
    × (1000 * 105 < b * 100 + 100)
string_to_big_int_bump_example = string_to_big_int_bump sample_env "1000" 1000 refl

abbrev sample_otx : Otx
sample_otx = record {
  id = 1;
  tracking_id = "t0";
  otx_type = Types.token_transfer;
  signer_account = "1";
  raw_tx = "0x04";
  tx_hash = "0xhash";
  nonce = 4;
  replaced = false;
  created_at = 900;
  updated_at = 900;
  dispatch_status = pending;
}

abbrev sample_report : ChainEvent
sample_report = record { success = true; tx_hash = "0xhash"; account = some "0xalice" }

found : Selects.get_otx_by_tx_hash sample_env.int_text "0xhash" sample_db ≡ ok sample_otx
unfolding Selects.get_otx_by_tx_hash
found = refl

process_event_settles_example :
    ((process_event sample_env "TRACKER.CUSTODIAL_REGISTRATION" [] sample_world).0 ≡ ok tt)
    × ((process_event sample_env "TRACKER.CUSTODIAL_REGISTRATION" [] sample_world).1.committed
        ≡ settled 1001 sample_otx true
            (activated "TRACKER.CUSTODIAL_REGISTRATION" sample_report sample_db))
process_event_settles_example =
    process_event_settles sample_env "TRACKER.CUSTODIAL_REGISTRATION" [] sample_report sample_otx
      sample_world (λ t. refl) refl (λ t. ("0xalice", refl)) found is_tracked

-- A report of a failure that names no account.
abbrev reverting_env : Env
reverting_env = record sample_env {
  unmarshal_event = λ b. some (record { success = false; tx_hash = "0xhash"; account = none });
}

transfer_reverts :
    status_of 1
      (process_event reverting_env "TRACKER.TOKEN_TRANSFER" [] sample_world).1.committed.dispatch
    ≡ some Types.reverted
unfolding process_event update_otx activate_account submit_referral Pg.begin Pg.external Pg.moment
    Pg.begin_at Pg.open_tx Pg.get_otx_by_tx_hash Pg.read Pg.write Pg.update_dispatch_tx_status
    Pg.send Pg.add_event Pg.commit Pg.publish_working ◌>>=◌ pure raise lift gets ignore_error
    attempt Queries.update_dispatch_status Selects.get_otx_by_tx_hash status_of
transfer_reverts = refl

-- The commit is the sixth call, and fails.
abbrev uncommitted_env : Env
uncommitted_env = record sample_env { fails = λ t. leb 5 t }

report_fails :
    (process_event uncommitted_env "TRACKER.CUSTODIAL_REGISTRATION" [] sample_world).0
    ≡ err (unavailable 5)
unfolding process_event update_otx activate_account submit_referral Pg.begin Pg.external Pg.moment
    Pg.begin_at Pg.open_tx Pg.get_otx_by_tx_hash Pg.read Pg.activate_key_pair Pg.write
    Pg.update_dispatch_tx_status Pg.send Pg.add_event Pg.commit Pg.publish_working ◌>>=◌ pure raise
    lift gets ignore_error attempt Queries.activate_keypair Queries.update_dispatch_status
    Selects.get_otx_by_tx_hash
report_fails = refl

process_event_failure_example :
    (process_event uncommitted_env "TRACKER.CUSTODIAL_REGISTRATION" [] sample_world).1.committed
    ≡ sample_db
process_event_failure_example =
    process_event_failure uncommitted_env "TRACKER.CUSTODIAL_REGISTRATION" [] sample_world
      report_fails

abbrev foreign_report : ChainEvent
foreign_report = record { success = true; tx_hash = "0xother"; account = none }

abbrev foreign_env : Env
foreign_env = record sample_env { unmarshal_event = λ b. some foreign_report }

not_found : Selects.get_otx_by_tx_hash foreign_env.int_text "0xother" sample_db ≡ err no_rows
unfolding Selects.get_otx_by_tx_hash
not_found = refl

process_event_unknown_example :
    ((process_event foreign_env "TRACKER.TOKEN_TRANSFER" [] sample_world).0 ≡ ok tt)
    × ((process_event foreign_env "TRACKER.TOKEN_TRANSFER" [] sample_world).1.committed ≡ sample_db)
    × ((process_event foreign_env "TRACKER.TOKEN_TRANSFER" [] sample_world).1.events ≡ [])
process_event_unknown_example =
    process_event_unknown foreign_env "TRACKER.TOKEN_TRANSFER" [] foreign_report sample_world
      (λ t. refl) refl not_found

retrier_work-IsInvisible_example :
    IsInvisible sample_world
      (retrier_work sample_env (record { tracking_id = "t0" }) sample_world).1
retrier_work-IsInvisible_example =
    retrier_work-IsInvisible sample_env (record { tracking_id = "t0" }) sample_world
