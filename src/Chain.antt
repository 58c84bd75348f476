-- ===== src/Chain.antt =====
-- Calls of the chain through `chainProvider.Client.CallCtx`, the functions of
-- internal/worker/chain.go, and the helpers of internal/worker/util.go.
pub mod Amount
use eth_custodial.Prelude.{ℕ, suc, String, Bool, true, false, none, some, List, ◌∷◌, ◌++◌}
use eth_custodial.Prelude.Int.{ℤ, scale, div_ℕ}
use eth_custodial.Jobs.{Bytes, Address}
use eth_custodial.Store.Results.{
  Result, ok, err, or_error, unavailable, invalid_number_string, bad_abi_args, panicked,
}
use eth_custodial.World.{M, GasSettings, lift, gets, ◌>>=◌, ◌>>◌}
use eth_custodial.Runtime.{Env, AbiArg, CallResult}

-- The contract functions of the map `Abi`.
pub data AbiFunc : Type 0 where
  approve mint_to transfer sweep transfer_ownership check give_to next_time : AbiFunc
  register withdraw deposit set_quoter add address_of : AbiFunc

abbrev pub abi : AbiFunc → String
abi approve = "approve(address, uint256)"
abi mint_to = "mintTo(address, uint256)"
abi transfer = "transfer(address,uint256)"
abi sweep = "sweep(address)"
abi transfer_ownership = "transferOwnership(address)"
abi check = "check(address)"
abi give_to = "giveTo(address)"
abi next_time = "nextTime(address)"
abi register = "register(address)"
abi withdraw = "withdraw(address,address,uint256)"
abi deposit = "deposit(address,uint256)"
abi set_quoter = "setQuoter(address)"
abi add = "add(address)"
abi address_of = "addressOf(bytes32)"

-- The moment of a call, and the next tick.
unfoldable pub tick : M ℕ
tick w = (ok w.clock, record w { clock = suc w.clock })

unfoldable pub log_sent : Bytes → M Unit
log_sent raw w = (ok tt, record w { sent = raw ∷ w.sent })

-- `GetSettings` of both gas oracles: it has no error.
unfoldable pub get_settings : M GasSettings
get_settings = gets (λ w. w.gas)

abbrev bumped : Bool → ℤ → ℤ
bumped bump n = elim bump [ true ↦ div_ℕ (scale 105 n) 100 | false ↦ n ]

module _ (env : Env) where
  unfoldable pub call_next_time : Address → M ℕ
  call_next_time a = do t ← tick; lift (or_error (env.next_time t a) (unavailable t))

  unfoldable pub call_check : Address → M Bool
  call_check a = do t ← tick; lift (or_error (env.check t a) (unavailable t))

  -- `eth.SendRawTx`: the raw transaction leaves the process, whatever the answer is.
  unfoldable pub call_send_raw_tx : Bytes → M CallResult
  call_send_raw_tx raw = do t ← tick; log_sent raw; gets (λ w. env.send_raw_tx t raw)

  -- `StringToBigInt`
  unfoldable pub string_to_big_int : String → Bool → Result ℤ
  string_to_big_int s bump = elim (env.set_string s) [
    | none ↦ err invalid_number_string
    | some n ↦ ok (bumped bump n)
  ]

  -- `addDivviRefferalTag`
  unfoldable pub add_referral_tag : Bytes → Address → Bytes
  add_referral_tag input user = input ++ env.referral_tag user

  -- `Abi[f].EncodeArgs(args)`
  abbrev pub encode : AbiFunc → List AbiArg → Result Bytes
  encode f args = or_error (env.encode_args (abi f) args) bad_abi_args

  -- `w3.A`, which panics on a malformed address
  abbrev pub w3_a : String → Result Address
  w3_a s = or_error (env.w3_address s) panicked
