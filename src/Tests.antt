-- ===== src/Tests.antt =====
-- A concrete service: the outside code by tables, and a database with two keys, on which the
-- theorems are applied.
mod Store
mod Service
mod Signers
mod Start
mod Pages
mod Api
mod Unlocker
mod Cmd
mod Journey
mod Pools
mod StartUp
mod Unlock
use eth_custodial.Prelude.{
  ℕ, suc, ◌+◌, String, Bool, true, false, Option, none, some, List, [], ◌∷◌, leb, str_eq,
}
use eth_custodial.Prelude.Int.{ℤ, pos}
use eth_custodial.Jobs.{TokenTransferArgs, DispatchArgs}
use eth_custodial.Store.Tables.{Db, OtxRow}
use eth_custodial.Store.Types.{pending, token_transfer}
use eth_custodial.World.{World}
use eth_custodial.Runtime.{
  Env, Contract, DynamicFeeTx, TransportError, CallError, CallResult, done, call_errors, ChainEvent,
}

abbrev no_contract : Contract
no_contract = record { byte_code = []; has_error = false; max_gas_limit = 1000000 }

abbrev pub no_fields : DynamicFeeTx
no_fields = record {
  nonce = 0;
  to = none;
  value = pos 0;
  input = [];
  gas = 0;
  gas_fee_cap = 0;
  gas_tip_cap = 0;
}

-- A signed transaction is its nonce. No call fails, and the node takes every transaction.
abbrev pub sample_env : Env
sample_env = record {
  fails = λ t. false;
  now = λ t. 1000 + t;
  PrivateKey = Unit;
  Tx = ℕ;
  hex_to_ecdsa = λ s. some tt;
  hex_decode = λ s. some (7 ∷ []);
  hex_encode = λ b. "0x07";
  from_hex = λ s. [];
  marshal_binary = λ tx. some (tx ∷ []);
  unmarshal_binary = λ b. none;
  tx_hash = λ tx. "0xhash";
  is_dynamic_fee = λ tx. true;
  tx_fields = λ tx. no_fields;
  hex_to_address = λ s. [];
  w3_address = λ s. some [];
  referral_tag = λ a. [];
  encode_args = λ s args. some [];
  sign_contract_execution_tx = λ k o. some o.nonce;
  sign_contract_publish_tx = λ k o. some o.nonce;
  sign_new_tx = λ k o. some o.nonce;
  set_string = λ s. some (pos 1000);
  int64 = λ n. pos n;
  int_text = λ n. "1";
  gas_faucet = [];
  custodial_proxy = [];
  token_index = [];
  pool_index = [];
  send_raw_tx = λ t raw. done;
  next_time = λ t a. some 0;
  check = λ t a. some true;
  tx_receipt = λ t h. none;
  nonce_at = λ t a. some 4;
  balance_at = λ t a. some (pos 100);
  index_entry = λ t a s. some (0 ∷ []);
  quote = λ t p a b n. some n;
  block_txs = λ t n. some none;
  sender = λ tx. some "0xalice";
  equal_fold = λ s t. str_eq s t;
  map_order = λ t ks. ks;
  decode_big = λ s. some (pos 1);
  new_uuid = λ t. "u1";
  generate_key_pair = λ t. some (record { public = "0xcarol"; private = "cc" });
  is_checksum_address = λ s. true;
  is_uuid = λ s. true;
  create_address = λ a n. [];
  common_address = λ s. [];
  parse_int = λ s. some (pos 5);
  decay_level = λ a b. some (pos 1);
  erc20 = λ a b c d. no_contract;
  erc20_demurrage = λ a b c d e f. no_contract;
  token_index_contract = no_contract;
  limiter_contract = no_contract;
  swap_pool_contract = λ a b c d e. no_contract;
  price_index_quoter_contract = no_contract;
  prod = false;
  banned_tokens = "0xbanned" ∷ [];
  build = "dev";
  is_email = λ s. true;
  sign_token = λ c. some "jwt";
  zero_address = "0x0";
  activate_divvi_submissions = false;
  unmarshal_event =
      λ b. some (record { success = true; tx_hash = "0xhash"; account = some "0xalice" });
}

abbrev pub sample_row : OtxRow
sample_row = record {
  id = 1;
  tracking_id = "t0";
  otx_type = token_transfer;
  signer_account = 1;
  raw_tx = "0x04";
  tx_hash = "0xhash";
  nonce = 4;
  replaced = false;
  created_at = 900;
  updated_at = 900;
}

-- One key, whose next nonce is 5, and one transaction, which is pending.
abbrev pub sample_db : Db
sample_db = record {
  keystore = record { id = 1; public_key = "0xalice"; private_key = "aa"; active = true } ∷ [];
  master_key = [];
  noncestore = record { keystore_id = 1; next_nonce = 5 } ∷ [];
  otx = sample_row ∷ [];
  dispatch = record { id = 1; otx_id = 1; status = pending; updated_at = 900 } ∷ [];
  river_job = [];
}

abbrev pub sample_world : World
sample_world = record {
  committed = sample_db;
  working = sample_db;
  keystore_seq = 2;
  otx_seq = 2;
  dispatch_seq = 2;
  clock = 0;
  began_at = 0;
  events = [];
  sent = [];
  gas = record { gas_fee_cap = 10; gas_tip_cap = 1; gas_limit = 350000 };
}

abbrev pub sample_transfer : TokenTransferArgs
sample_transfer = record {
  tracking_id = "t1";
  from = "0xalice";
  to = "0xbob";
  token_address = "0xtoken";
  amount = "1000";
}

abbrev pub sample_dispatch : DispatchArgs
sample_dispatch = record { tracking_id = "t0"; otx_id = 1; raw_tx = "0x04" }

-- A node that knows the transaction already, and says so outside of JSON-RPC's errors.
abbrev pub refusal : CallError
refusal = record { is_rpc_error = false; message = "already known" }

abbrev pub refusing_env : Env
refusing_env = record sample_env { send_raw_tx = λ t raw. call_errors refusal }

-- The database cannot be reached from its eighth call on.
abbrev pub failing_env : Env
failing_env = record sample_env { fails = λ t. leb 7 t }
