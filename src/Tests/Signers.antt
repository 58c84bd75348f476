-- ===== src/Tests/Signers.antt =====
-- The sweep and the generic signer at a concrete service.
use eth_custodial.Prelude.{◌≡◌, refl}
use eth_custodial.Jobs.{TokenSweepArgs, GenericSignArgs}
use eth_custodial.Store.Types
use eth_custodial.Store.Results.{ok}
use eth_custodial.Store.Queries
use eth_custodial.World.{◌>>=◌, pure, raise, lift, gets, ignore_error, attempt}
use eth_custodial.Pg
use eth_custodial.Chain.{get_settings, string_to_big_int, add_referral_tag}
use eth_custodial.Worker.Signing.{sign_call, record_tx, announce}
use eth_custodial.Worker.Transfers.{token_sweep_work, generic_sign_work}
use eth_custodial.Worker.Issue.{OneIssued}
use eth_custodial.Worker.Issue.Signers.{
  SweepCall, GenericCall, transfer_jobs, sweep_jobs, token_sweep_work-OneIssued,
  generic_sign_work-OneIssued,
}
use eth_custodial.Tests.{sample_env, sample_world, sample_db}

abbrev sample_sweep : TokenSweepArgs
sample_sweep = record {
  tracking_id = "t2";
  from = "0xalice";
  to = "0xbob";
  token_address = "0xtoken";
}

sweep_completes : (token_sweep_work sample_env sample_sweep sample_world).0 ≡ ok tt
unfolding token_sweep_work Pg.begin Pg.external Pg.moment Pg.begin_at Pg.open_tx Pg.load_private_key
    Pg.read Pg.acquire_nonce Pg.write_returning Pg.insert_otx Pg.write Pg.next_otx_id
    Pg.insert_dispatch_tx Pg.next_dispatch_id Pg.insert_many_tx Pg.send Pg.add_event Pg.commit
    Pg.publish_working ◌>>=◌ pure raise lift gets ignore_error attempt Queries.load_key
    Queries.acquire_nonce Queries.insert_otx Queries.insert_dispatch get_settings string_to_big_int
    add_referral_tag sign_call record_tx announce
sweep_completes = refl

token_sweep_work-OneIssued_example :
    OneIssued "0xalice" "t2" Types.token_sweep
      (SweepCall sample_env sample_sweep)
      (sweep_jobs "t2")
      sample_db
      (token_sweep_work sample_env sample_sweep sample_world).1.committed
token_sweep_work-OneIssued_example =
    token_sweep_work-OneIssued sample_env sample_sweep sample_world sweep_completes

abbrev sample_sign : GenericSignArgs
sample_sign = record {
  tracking_id = "t3";
  to = "0xbob";
  from = "0xalice";
  value = "1000";
  input = "0x";
}

sign_completes : (generic_sign_work sample_env sample_sign sample_world).0 ≡ ok tt
unfolding generic_sign_work Pg.begin Pg.external Pg.moment Pg.begin_at Pg.open_tx
    Pg.load_private_key Pg.read Pg.acquire_nonce Pg.write_returning Pg.insert_otx Pg.write
    Pg.next_otx_id Pg.insert_dispatch_tx Pg.next_dispatch_id Pg.insert_many_tx Pg.send Pg.add_event
    Pg.commit Pg.publish_working ◌>>=◌ pure raise lift gets ignore_error attempt Queries.load_key
    Queries.acquire_nonce Queries.insert_otx Queries.insert_dispatch get_settings string_to_big_int
    add_referral_tag sign_call record_tx announce
sign_completes = refl

generic_sign_work-OneIssued_example :
    OneIssued "0xalice" "t3" Types.generic_sign
      (GenericCall sample_env sample_sign)
      (transfer_jobs "t3" "0xalice")
      sample_db
      (generic_sign_work sample_env sample_sign sample_world).1.committed
generic_sign_work-OneIssued_example =
    generic_sign_work-OneIssued sample_env sample_sign sample_world sign_completes
