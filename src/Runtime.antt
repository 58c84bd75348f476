-- ===== src/Runtime.antt =====
-- What the code calls and does not implement: the outcome of the calls that leave the process,
-- go-ethereum, w3, ethutils, math/big, uuid. An answer that may change from one call to the next
-- takes the moment of the call. Partial answers are `Option`: `none` is the library's error.
use eth_custodial.Prelude.{ℕ, String, Bool, Option, List}
use eth_custodial.Prelude.Int.{ℤ}
use eth_custodial.Jobs.{Bytes, Address, Key}

-- ethutils `ContractExecutionTxOpts` and `ContractPublishTxOpts`, types `DynamicFeeTx`
pub record ContractExecutionTxOpts : Type 0 where
  pub contract_address : Address
  pub input_data : Bytes
  pub gas_fee_cap : ℕ
  pub gas_tip_cap : ℕ
  pub gas_limit : ℕ
  pub nonce : ℕ

pub record ContractPublishTxOpts : Type 0 where
  pub contract_byte_code : Bytes
  pub gas_fee_cap : ℕ
  pub gas_tip_cap : ℕ
  pub gas_limit : ℕ
  pub nonce : ℕ

pub record DynamicFeeTx : Type 0 where
  pub nonce : ℕ
  pub to : Option Address
  pub value : ℤ
  pub input : Bytes
  pub gas : ℕ
  pub gas_fee_cap : ℕ
  pub gas_tip_cap : ℕ

-- `ethutils.GasTransferTxOpts`
pub record GasTransferTxOpts : Type 0 where
  pub to : Address
  pub value : ℤ
  pub gas_fee_cap : ℕ
  pub gas_tip_cap : ℕ
  pub nonce : ℕ

-- An argument of a contract's function.
pub data AbiArg : Type 0 where
  address : Address → AbiArg
  uint : ℤ → AbiArg

-- One entry of `w3.CallErrors`: whether it is an `rpc.Error`, and its text.
pub record CallError : Type 0 where
  pub is_rpc_error : Bool
  pub message : String

-- Any other error of a call, by what the code asks of it.
pub record TransportError : Type 0 where
  pub is_net_error : Bool
  pub is_url_error : Bool
  pub is_deadline_exceeded : Bool
  pub message : String

-- `Client.CallCtx` of one call.
pub data CallResult : Type 0 where
  done : CallResult
  call_errors : CallError → CallResult
  failed : TransportError → CallResult

pub record Receipt : Type 0 where
  pub status : ℕ
  pub block_number : Option ℕ

-- A contract of ge-publish: what `Bytecode` returns, whether with an error, and `MaxGasLimit`.
pub record Contract : Type 0 where
  pub byte_code : Bytes
  pub has_error : Bool
  pub max_gas_limit : ℕ

-- The event of eth-tracker, as `json.Unmarshal` fills it; `account` is `Payload["account"]` where
-- that is a string.
pub record ChainEvent : Type 0 where
  pub success : Bool
  pub tx_hash : String
  pub account : Option String

-- internal/api/auth.go `JWTCustomClaims`, as the login fills it.
pub record LoginClaims : Type 0 where
  pub service : Bool
  pub public_key : String
  pub issuer : String
  pub subject : String
  pub issued_at : ℕ
  pub expires_at : ℕ

pub record Env : Type 1 where
  -- does the call made at this moment fail?
  pub fails : ℕ → Bool
  -- the clock on the wall, in seconds
  pub now : ℕ → ℕ
  -- crypto and types
  pub PrivateKey : Type 0
  pub Tx : Type 0
  pub hex_to_ecdsa : String → Option PrivateKey
  pub hex_decode : String → Option Bytes
  pub hex_encode : Bytes → String
  pub from_hex : String → Bytes
  pub marshal_binary : Tx → Option Bytes
  pub unmarshal_binary : Bytes → Option Tx
  pub tx_hash : Tx → String
  pub is_dynamic_fee : Tx → Bool
  pub tx_fields : Tx → DynamicFeeTx
  -- ethutils and w3
  pub hex_to_address : String → Address
  pub w3_address : String → Option Address
  pub referral_tag : Address → Bytes
  pub encode_args : String → List AbiArg → Option Bytes
  pub sign_contract_execution_tx : PrivateKey → ContractExecutionTxOpts → Option Tx
  pub sign_contract_publish_tx : PrivateKey → ContractPublishTxOpts → Option Tx
  pub sign_new_tx : PrivateKey → DynamicFeeTx → Option Tx
  -- big.Int `SetString` in base 10, and `Int64`
  pub set_string : String → Option ℤ
  -- `hexutil.DecodeBig`
  pub decode_big : String → Option ℤ
  -- `uuid.NewString` and `keypair.GenerateKeyPair`, at the moment of the call
  pub new_uuid : ℕ → String
  pub generate_key_pair : ℕ → Option Key
  -- the validator's rules `eth_addr_checksum` and `uuid`
  pub is_checksum_address : String → Bool
  pub is_uuid : String → Bool
  pub is_email : String → Bool
  -- `SignedString` of a token, and `ethutils.ZeroAddress` in hex
  pub sign_token : LoginClaims → Option String
  pub zero_address : String
  pub int64 : ℕ → ℤ
  -- how the driver writes an integer column into a Go string
  pub int_text : ℕ → String
  -- the entry point registry
  pub gas_faucet : Address
  pub custodial_proxy : Address
  pub token_index : Address
  pub pool_index : Address
  -- the chain, at the moment of the call
  pub send_raw_tx : ℕ → Bytes → CallResult
  pub next_time : ℕ → Address → Option ℕ
  pub check : ℕ → Address → Option Bool
  pub tx_receipt : ℕ → String → Option (Option Receipt)
  pub nonce_at : ℕ → Address → Option ℕ
  pub balance_at : ℕ → Address → Option ℤ
  -- `addressOf` of an index, for a symbol that is padded to 32 bytes
  pub index_entry : ℕ → Address → String → Option Address
  pub quote : ℕ → Address → Address → Address → ℤ → Option ℤ
  -- the transactions of the block with a number, where the node has the block
  pub block_txs : ℕ → ℕ → Option (Option (List Tx))
  -- `types.Sender` with `Hex`, and `strings.EqualFold`
  pub sender : Tx → Option String
  pub equal_fold : String → String → Bool
  -- the order in which Go visits the keys of a map
  pub map_order : ℕ → List String → List String
  -- `crypto.CreateAddress`, `common.HexToAddress`, `strconv.ParseInt`
  pub create_address : Address → ℕ → Address
  pub common_address : String → Address
  pub parse_int : String → Option ℤ
  -- ge-publish
  pub decay_level : ℤ → ℤ → Option ℤ
  pub erc20 : String → String → ℕ → ℤ → Contract
  pub erc20_demurrage : String → String → ℕ → ℤ → ℤ → Address → Contract
  pub token_index_contract : Contract
  pub limiter_contract : Contract
  pub swap_pool_contract : String → String → ℕ → Address → Address → Contract
  pub price_index_quoter_contract : Contract
  -- the configuration
  pub prod : Bool
  pub banned_tokens : List String
  pub build : String
  pub activate_divvi_submissions : Bool
  -- `json.Unmarshal` of a message
  pub unmarshal_event : Bytes → Option ChainEvent
