-- ===== src/Worker/Signing.antt =====
-- The steps that the signing workers repeat: sign a contract call, record the transaction and its
-- dispatch status in the open transaction, and the jobs that follow.
use eth_custodial.Prelude.{ℕ, String, Option, none, some}
use eth_custodial.Jobs.{Bytes, Address, Job, dispatch, gas_refill}
use eth_custodial.Store.Types.{OtxType, pending}
use eth_custodial.Store.Results.{Result, or_error, bad_private_key, sign_failed, marshal_failed}
use eth_custodial.World.{M, GasSettings, pure, lift, ignore_error, ◌>>=◌, ◌>>◌}
use eth_custodial.Runtime.{Env}
use eth_custodial.Chain.{add_referral_tag}
use eth_custodial.Pg

-- What a worker keeps of a recorded transaction for its dispatch job.
pub record Recorded : Type 0 where
  pub otx_id : ℕ
  pub raw_tx : String

module _ (env : Env) where
  -- `crypto.HexToECDSA(keypair.Private)`
  abbrev pub private_key_of : String → Result env.PrivateKey
  private_key_of private = or_error (env.hex_to_ecdsa private) bad_private_key

  -- `SignContractExecutionTx` with the tagged input and the oracle's gas settings.
  unfoldable pub sign_call :
      env.PrivateKey → Address → Bytes → Address → GasSettings → ℕ → Result env.Tx
  sign_call key target input user settings nonce =
      or_error
        (env.sign_contract_execution_tx key (record {
          contract_address = target;
          input_data = add_referral_tag env input user;
          gas_fee_cap = settings.gas_fee_cap;
          gas_tip_cap = settings.gas_tip_cap;
          gas_limit = settings.gas_limit;
          nonce = nonce;
        }))
        sign_failed

  -- `SignContractPublishTx` with the tagged byte code and the contract's own gas limit.
  unfoldable pub sign_publish :
      env.PrivateKey → Bytes → ℕ → Address → GasSettings → ℕ → Result env.Tx
  sign_publish key byte_code gas_limit user settings nonce =
      or_error
        (env.sign_contract_publish_tx key (record {
          contract_byte_code = add_referral_tag env byte_code user;
          gas_fee_cap = settings.gas_fee_cap;
          gas_tip_cap = settings.gas_tip_cap;
          gas_limit = gas_limit;
          nonce = nonce;
        }))
        sign_failed

  -- `MarshalBinary`, `InsertOTX` and `InsertDispatchTx` of a signed transaction.
  unfoldable pub record_tx : String → OtxType → String → ℕ → env.Tx → M Recorded
  record_tx tracking_id otx_type signer nonce tx = do
    raw ← lift (or_error (env.marshal_binary tx) marshal_failed)
    id ← Pg.insert_otx env (record {
      tracking_id = tracking_id;
      otx_type = otx_type;
      signer_account = signer;
      raw_tx = env.hex_encode raw;
      tx_hash = env.tx_hash tx;
      nonce = nonce;
    })
    Pg.insert_dispatch_tx env id pending
    pure (record { otx_id = id; raw_tx = env.hex_encode raw })

  -- `w.wc.pub.Send` of the pending status
  unfoldable pub announce : String → M Unit
  announce tracking_id =
      ignore_error (Pg.send env (record { tracking_id = tracking_id; status = pending }))

abbrev pub dispatch_job : String → Recorded → Option ℕ → Job
dispatch_job tracking_id r priority = record {
  args = dispatch (record { tracking_id = tracking_id; otx_id = r.otx_id; raw_tx = r.raw_tx });
  priority = priority;
  max_attempts = none;
}

-- The field `OTXID` is left at its zero value.
abbrev pub gas_refill_job : String → String → ℕ → Job
gas_refill_job tracking_id account priority = record {
  args = gas_refill (record { otx_id = 0; tracking_id = tracking_id; address = account });
  priority = some priority;
  max_attempts = none;
}
