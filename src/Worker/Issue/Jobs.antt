-- ===== src/Worker/Issue/Jobs.antt =====
-- The jobs that a recorded transaction is to be followed by, written out.
use eth_custodial.Prelude.{ℕ, String, Option, none, some}
use eth_custodial.Jobs.{Job, dispatch, gas_refill}
use eth_custodial.Worker.Signing.{Recorded}

-- The dispatch of its text, by its id.
abbrev pub dispatch_of : String → Recorded → Option ℕ → Job
dispatch_of tracking_id otx priority = record {
  args = dispatch (record { tracking_id = tracking_id; otx_id = otx.otx_id; raw_tx = otx.raw_tx });
  priority = priority;
  max_attempts = none;
}

-- The refill of the account's gas, for no transaction in particular.
abbrev pub refill_of : String → String → ℕ → Job
refill_of tracking_id account priority = record {
  args = gas_refill (record { otx_id = 0; tracking_id = tracking_id; address = account });
  priority = some priority;
  max_attempts = none;
}
