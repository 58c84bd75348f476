-- ===== src/Worker/Deploys.antt =====
-- The workers that deploy contracts with the system account: internal/worker/token_deploy.go,
-- demurrage_token_deploy.go and pool_deploy.go.
use eth_custodial.Prelude.{
  ℕ, String, Bool, true, false, none, some, List, [], ◌∷◌, if◌then◌else◌, str_eq,
}
use eth_custodial.Prelude.Int.{ℤ, pos, ltb_ℤ}
use eth_custodial.Jobs.{
  Bytes, Address, Job, TokenDeployArgs, DemurrageTokenDeployArgs, PoolDeployArgs,
}
use eth_custodial.Store.Types.{
  OtxType, standard_token_deploy, expiring_token_deploy, demurrage_token_deploy, token_index_add,
  token_transfer, transfer_ownership, token_index_deploy, limiter_deploy, swappool_deploy,
  priceindexquoter_deploy, pool_index_add, set_quoter,
}
use eth_custodial.Store.Results.{Result, ok, err, or_error, no_bytecode, bad_integer}
use eth_custodial.World.{M, GasSettings, pure, lift, ignore_error, ◌>>=◌, ◌>>◌}
use eth_custodial.Runtime.{Env, Contract, address, uint}
use eth_custodial.Chain.{AbiFunc, add, mint_to, get_settings, string_to_big_int, encode, w3_a}
use eth_custodial.Chain
use eth_custodial.Pg
use eth_custodial.Worker.Signing.{
  Recorded, private_key_of, sign_call, sign_publish, record_tx, announce, dispatch_job,
}

-- `Bytecode`, whose error ends the worker
abbrev byte_code_of : Contract → Result Bytes
byte_code_of c = if c.has_error then err no_bytecode else ok c.byte_code

-- What the steps of one deployment share: the job's tracking id, the system account, its key and
-- the gas settings.
pub record Signer (K : Type 0) : Type 0 where
  pub tracking_id : String
  pub public : String
  pub key : K
  pub settings : GasSettings

module _ (env : Env) where
  -- Sign and record the deployment of a contract with the nonce in hand.
  unfoldable pub publish : Signer env.PrivateKey → OtxType → Bytes → ℕ → ℕ → M Recorded
  publish s t byte_code gas_limit nonce = do
    tx ←
        lift (
          sign_publish env s.key byte_code gas_limit (env.hex_to_address s.public) s.settings nonce)
    record_tx env s.tracking_id t s.public nonce tx

  -- Take a nonce, sign and record a call of a contract.
  unfoldable pub call : Signer env.PrivateKey → OtxType → Address → Bytes → M Recorded
  call s t target input = do
    nonce ← Pg.acquire_nonce env s.public
    tx ← lift (sign_call env s.key target input (env.hex_to_address s.public) s.settings nonce)
    record_tx env s.tracking_id t s.public nonce tx

  -- The expiry is 0 where none is given, and where it is no number.
  abbrev pub expiry_of : String → ℤ
  expiry_of s = if str_eq s "" then pos 0 else elim (env.set_string s) [ none ↦ pos 0 | some n ↦ n ]

  abbrev pub deploy_type : ℤ → OtxType
  deploy_type expiry = if ltb_ℤ (pos 0) expiry then expiring_token_deploy else standard_token_deploy

  -- What follows a token's deployment in both token workers: the token index, the mint of the
  -- initial supply, the new owner, the four dispatch jobs, the event and the commit.
  unfoldable pub set_up_token :
      Signer env.PrivateKey → String → String → String → ℕ → Recorded → M Unit
  set_up_token s supply mintee owner nonce deployed = do
    let token = env.create_address (env.common_address s.public) nonce
    add_input ← lift (encode env add (address token ∷ []))
    added ← call s token_index_add env.token_index add_input
    amount ← lift (string_to_big_int env supply false)
    mint_input ← lift (encode env mint_to (address (env.common_address mintee) ∷ uint amount ∷ []))
    minted ← call s token_transfer token mint_input
    owner_input ←
        lift (encode env Chain.transfer_ownership (address (env.common_address owner) ∷ []))
    owned ← call s transfer_ownership token owner_input
    Pg.insert_many_tx env (
        dispatch_job s.tracking_id deployed (some 1)
        ∷ dispatch_job s.tracking_id added (some 2)
        ∷ dispatch_job s.tracking_id minted (some 3)
        ∷ dispatch_job s.tracking_id owned (some 4)
        ∷ [])
    announce env s.tracking_id
    Pg.commit env

  -- The head of the three deploy workers.
  unfoldable pub load_signer : String → M (Signer env.PrivateKey)
  load_signer tracking_id = do
    Pg.begin env
    system ← Pg.load_master_signer_key env
    key ← lift (private_key_of env system.private)
    settings ← get_settings
    pure (record {
      tracking_id = tracking_id;
      public = system.public;
      key = key;
      settings = settings;
    })

  -- `TokenDeployWorker.Work`
  unfoldable pub token_deploy_work : TokenDeployArgs → M Unit
  token_deploy_work args = do
    s ← load_signer args.tracking_id
    nonce ← Pg.acquire_nonce env s.public
    let expiry = expiry_of args.expiry_timestamp
    let contract = env.erc20 args.name args.symbol args.decimals expiry
    byte_code ← lift (byte_code_of contract)
    deployed ← publish s (deploy_type expiry) byte_code contract.max_gas_limit nonce
    announce env args.tracking_id
    set_up_token s args.initial_supply args.initial_mintee args.owner nonce deployed

  -- `DemurrageTokenDeployWorker.Work`: the error of `Bytecode` is caught by an empty block, so
  -- the worker goes on with whatever bytes came with it.
  unfoldable pub demurrage_token_deploy_work : DemurrageTokenDeployArgs → M Unit
  demurrage_token_deploy_work args = do
    s ← load_signer args.tracking_id
    nonce ← Pg.acquire_nonce env s.public
    rate ← lift (or_error (env.parse_int args.demurrage_rate) bad_integer)
    period ← lift (or_error (env.parse_int args.demurrage_period) bad_integer)
    decay ← lift (or_error (env.decay_level rate period) bad_integer)
    let contract =
        env.erc20_demurrage args.name args.symbol args.decimals decay period
          (env.common_address args.sink_address)
    deployed ← publish s demurrage_token_deploy contract.byte_code contract.max_gas_limit nonce
    announce env args.tracking_id
    set_up_token s args.initial_supply args.initial_mintee args.owner nonce deployed

  -- Deploy one contract: the record of its transaction, and its address.
  unfoldable pub deploy : Signer env.PrivateKey → OtxType → Contract → M (Recorded × Address)
  deploy s t contract = do
    nonce ← Pg.acquire_nonce env s.public
    byte_code ← lift (byte_code_of contract)
    otx ← publish s t byte_code contract.max_gas_limit nonce
    pure (otx, env.create_address (env.common_address s.public) nonce)

  -- Hand a contract over to its owner.
  unfoldable pub hand_over : Signer env.PrivateKey → Address → String → M Recorded
  hand_over s contract owner = do
    input ← lift (encode env Chain.transfer_ownership (address (env.common_address owner) ∷ []))
    call s transfer_ownership contract input

  -- "0x01eD8Fe01a2Ca44Cb26D00b1309d7D777471D00C" stands in for the registry's entry in production.
  abbrev pub pool_index_of : Bool → Result Address
  pool_index_of true = w3_a env "0x01eD8Fe01a2Ca44Cb26D00b1309d7D777471D00C"
  pool_index_of false = ok env.pool_index

  -- "Add SwapPool to PoolIndex"
  unfoldable pub add_to_pool_index : Signer env.PrivateKey → Bytes → M Recorded
  add_to_pool_index s input = do
    nonce ← Pg.acquire_nonce env s.public
    index ← lift (pool_index_of env.prod)
    tx ← lift (sign_call env s.key index input (env.hex_to_address s.public) s.settings nonce)
    record_tx env s.tracking_id pool_index_add s.public nonce tx

  -- The jobs of a pool's ten transactions, the ENS registration (best effort), the event, the
  -- commit.
  unfoldable pub finish_pool_deploy : Signer env.PrivateKey → List Job → M Unit
  finish_pool_deploy s jobs = do
    Pg.insert_many_tx env jobs
    ignore_error (Pg.external env)
    announce env s.tracking_id
    Pg.commit env

  -- `PoolDeployWorker.Work`
  unfoldable pub pool_deploy_work : PoolDeployArgs → M Unit
  pool_deploy_work args = do
    s ← load_signer args.tracking_id
    index ← deploy s token_index_deploy env.token_index_contract
    limiter ← deploy s limiter_deploy env.limiter_contract
    pool ←
        deploy s swappool_deploy (env.swap_pool_contract args.name args.symbol 6 index.1 limiter.1)
    quoter ← deploy s priceindexquoter_deploy env.price_index_quoter_contract
    add_input ← lift (encode env add (address pool.1 ∷ []))
    added ← add_to_pool_index s add_input
    quoter_input ← lift (encode env Chain.set_quoter (address quoter.1 ∷ []))
    quoted ← call s set_quoter pool.1 quoter_input
    limiter_owned ← hand_over s limiter.1 args.owner
    index_owned ← hand_over s index.1 args.owner
    pool_owned ← hand_over s pool.1 args.owner
    quoter_owned ← hand_over s quoter.1 args.owner
    finish_pool_deploy s (
        dispatch_job s.tracking_id index.0 (some 1)
        ∷ dispatch_job s.tracking_id limiter.0 (some 1)
        ∷ dispatch_job s.tracking_id pool.0 (some 1)
        ∷ dispatch_job s.tracking_id quoter.0 (some 1)
        ∷ dispatch_job s.tracking_id added (some 2)
        ∷ dispatch_job s.tracking_id quoted (some 3)
        ∷ dispatch_job s.tracking_id limiter_owned (some 4)
        ∷ dispatch_job s.tracking_id index_owned (some 4)
        ∷ dispatch_job s.tracking_id pool_owned (some 4)
        ∷ dispatch_job s.tracking_id quoter_owned (some 4)
        ∷ [])
