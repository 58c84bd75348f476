-- ===== src/Worker/Issue/Calls.antt =====
-- What the raw text of a recorded transaction says: the call that was signed.
use eth_custodial.Prelude.{ℕ, ◌≡◌, String, some, List, ap}
use eth_custodial.Prelude.Int.{ℤ}
use eth_custodial.Jobs.{Bytes, Address}
use eth_custodial.Store.Types.{OtxType}
use eth_custodial.Store.Tables.{Db, OtxRow}
use eth_custodial.Store.Results.{ok, or_error, or_error-ok, sign_failed}
use eth_custodial.World.{GasSettings}
use eth_custodial.Runtime.{Env, AbiArg}
use eth_custodial.Chain.{AbiFunc, abi, encode, add_referral_tag}
use eth_custodial.Worker.Signing.{Recorded, sign_call}
use eth_custodial.Worker.Issue.{AfterRecord, IsTextOf}
use eth_custodial.Worker.Issue.Filed.{recorded_of}

-- `raw_tx` is the text of a transaction, signed with some key, that calls `target` with the tagged
-- input, under the nonce.
pub record IsCall (env : Env) (target : Address) (input : Bytes) (user : Address) (nonce : ℕ)
    (raw_tx : String) : Type 0 where
  pub key : env.PrivateKey
  pub settings : GasSettings
  pub tx : env.Tx
  pub signed :
      env.sign_contract_execution_tx key (record {
        contract_address = target;
        input_data = add_referral_tag env input user;
        gas_fee_cap = settings.gas_fee_cap;
        gas_tip_cap = settings.gas_tip_cap;
        gas_limit = settings.gas_limit;
        nonce = nonce;
      })
      ≡ some tx
  pub text : IsTextOf env tx raw_tx

-- The call of a function with arguments.
abbrev pub Invokes : (env : Env) → Address → AbiFunc → List AbiArg → Address → ℕ → String → Type 0
Invokes env target f args user nonce raw_tx =
    (input : Bytes) × (env.encode_args (abi f) args ≡ some input)
    × IsCall env target input user nonce raw_tx

-- `raw_tx` is the text of a transaction, signed with some key, that sends the value and the input to
-- an address, under the nonce.
pub record IsSend (env : Env) (to : Address) (value : ℤ) (input : Bytes) (nonce : ℕ)
    (raw_tx : String) : Type 0 where
  pub key : env.PrivateKey
  pub settings : GasSettings
  pub tx : env.Tx
  pub signed :
      env.sign_new_tx key (record {
        nonce = nonce;
        to = some to;
        value = value;
        input = input;
        gas = settings.gas_limit;
        gas_fee_cap = settings.gas_fee_cap;
        gas_tip_cap = settings.gas_tip_cap;
      })
      ≡ some tx
  pub text : IsTextOf env tx raw_tx

-- A call recorded in a view, of which `P` holds.
pub record AfterCall (b : Db) (pk tracking_id : String) (t : OtxType) (P : ℕ → String → Type 0)
    (r : Recorded) (d : Db) : Type 0 where
  pub recorded : AfterRecord b pk tracking_id t r d
  pub described : P recorded.new.nonce r.raw_tx

pub recalled :
    (P : ℕ → String → Type 0) {n m : ℕ} (o : OtxRow) {r : Recorded}
    → n ≡ m
    → recorded_of o ≡ r
    → P m r.raw_tx
    → P n o.raw_tx
recalled P o {r} e f h = let raw : o.raw_tx ≡ r.raw_tx = ap (λ x. x.raw_tx) f in rw (e, raw) h

module _ (env : Env) where
  pub invokes :
      (key : env.PrivateKey) (settings : GasSettings) (fn : AbiFunc) {args : List AbiArg}
      (target user : Address) (input : Bytes) (n : ℕ) (tx : env.Tx) {raw_tx : String}
      → encode env fn args ≡ ok input
      → sign_call env key target input user settings n ≡ ok tx
      → IsTextOf env tx raw_tx
      → Invokes env target fn args user n raw_tx
  unfolding sign_call
  invokes key settings fn target user input n tx e s text = (
    input,
    or_error-ok _ _ _ e,
    record { key = key; settings = settings; tx = tx; signed = or_error-ok _ _ _ s; text = text },
  )

  pub sends :
      (key : env.PrivateKey) (settings : GasSettings) (to : Address) (value : ℤ) (input : Bytes)
      (n : ℕ) (tx : env.Tx) {raw_tx : String}
      → or_error
          (env.sign_new_tx key (record {
            nonce = n;
            to = some to;
            value = value;
            input = input;
            gas = settings.gas_limit;
            gas_fee_cap = settings.gas_fee_cap;
            gas_tip_cap = settings.gas_tip_cap;
          }))
          sign_failed
        ≡ ok tx
      → IsTextOf env tx raw_tx
      → IsSend env to value input n raw_tx
  sends key settings to value input n tx s text = record {
    key = key;
    settings = settings;
    tx = tx;
    signed = or_error-ok _ _ _ s;
    text = text;
  }

  pub after_call :
      {b : Db} {pk tracking_id : String} {t : OtxType} (P : ℕ → String → Type 0) {n : ℕ}
      {tx : env.Tx} {r : Recorded} {d : Db}
      → ((a : AfterRecord b pk tracking_id t r d) × (a.new.nonce ≡ n) × IsTextOf env tx r.raw_tx)
      → (IsTextOf env tx r.raw_tx → P n r.raw_tx)
      → AfterCall b pk tracking_id t P r d
  after_call P (a, e, text) f = record { recorded = a; described = rw e (f text) }
