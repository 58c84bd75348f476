-- ===== src/Worker/Issue/Pools.antt =====
-- The contract of the pool workers (internal/worker/pool_swap.go and pool_deposit.go), stated on
-- the tables: three transactions of one account under consecutive nonces.
pub mod Views
pub mod Steps
pub mod Workers
use eth_custodial.Prelude.{ℕ, ◌+◌, ◌≡◌, String, true, false, some, List, [], ◌∷◌, ◌++◌}
use eth_custodial.Prelude.Int.{ℤ, pos}
use eth_custodial.Jobs.{Job, PoolSwapArgs, PoolDepositArgs}
use eth_custodial.Store.Types.{OtxType, token_approve}
use eth_custodial.Store.Tables.{Db, OtxRow, DispatchRow}
use eth_custodial.Store.Results.{ok}
use eth_custodial.Store.Queries.{key_id, next_nonce_of, set_next_nonce}
use eth_custodial.Runtime.{Env, address, uint}
use eth_custodial.Chain.{approve, withdraw, deposit, string_to_big_int}
use eth_custodial.Worker.Signing.{Recorded}
use eth_custodial.Worker.Issue.Jobs.{dispatch_of, refill_of}
use eth_custodial.Worker.Issue.Calls.{Invokes}
use eth_custodial.Worker.Issue.Filed.{IsFiled, recorded_of}

-- The jobs that a pool worker queues.
abbrev pub pool_jobs : String → String → Recorded → Recorded → Recorded → List Job
pool_jobs tracking_id from reset approval action =
    dispatch_of tracking_id reset (some 1)
    ∷ dispatch_of tracking_id approval (some 2)
    ∷ dispatch_of tracking_id action (some 3)
    ∷ refill_of tracking_id from 4
    ∷ []

-- What is known of the three calls, by their nonces and their raw texts.
pub record Calls : Type 1 where
  pub reset : ℕ → String → Type 0
  pub approval : ℕ → String → Type 0
  pub action : ℕ → String → Type 0

-- The token approves the pool for 0, and then for the amount with its 5%.
module _ (env : Env) where
  abbrev pub ApprovesNothing : String → String → String → ℕ → String → Type 0
  ApprovesNothing from token pool =
      Invokes env (env.hex_to_address token) approve
        (address (env.hex_to_address pool) ∷ uint (pos 0) ∷ []) (env.hex_to_address from)

  abbrev pub ApprovesAmount : String → String → String → String → ℕ → String → Type 0
  ApprovesAmount from token pool amount nonce raw_tx =
      (bumped : ℤ) × (string_to_big_int env amount true ≡ ok bumped)
      × Invokes env (env.hex_to_address token) approve
          (address (env.hex_to_address pool) ∷ uint bumped ∷ []) (env.hex_to_address from) nonce
          raw_tx

  -- The pool is called for the swap of the amount.
  abbrev pub swap_calls : PoolSwapArgs → Calls
  swap_calls args = record {
    reset = ApprovesNothing args.from args.from_token_address args.pool_address;
    approval = ApprovesAmount args.from args.from_token_address args.pool_address args.amount;
    action = λ nonce raw_tx.
        (amount : ℤ) × (string_to_big_int env args.amount false ≡ ok amount)
        × Invokes env (env.hex_to_address args.pool_address) withdraw
            (address (env.hex_to_address args.to_token_address)
              ∷ address (env.hex_to_address args.from_token_address)
              ∷ uint amount
              ∷ [])
            (env.hex_to_address args.from) nonce raw_tx;
  }

  abbrev pub deposit_calls : PoolDepositArgs → Calls
  deposit_calls args = record {
    reset = ApprovesNothing args.from args.token_address args.pool_address;
    approval = ApprovesAmount args.from args.token_address args.pool_address args.amount;
    action = λ nonce raw_tx.
        (amount : ℤ) × (string_to_big_int env args.amount false ≡ ok amount)
        × Invokes env (env.hex_to_address args.pool_address) deposit
            (address (env.hex_to_address args.token_address) ∷ uint amount ∷ [])
            (env.hex_to_address args.from) nonce raw_tx;
  }

-- From `c0` to `c`, the account `pk` was given its next three nonces. Under them two approvals and
-- a call of type `t` are recorded in this order, each with a pending dispatch row and with the text
-- of a signed transaction that makes the call described; their dispatches are queued in this order,
-- with rising priority numbers, and a gas refill after them. No key and no other row changed.
pub record ThreeIssued (pk tracking_id : String) (t : OtxType) (calls : Calls) (c0 c : Db)
    : Type 0 where
  pub signer : ℕ
  pub nonce : ℕ
  pub reset : OtxRow
  pub approval : OtxRow
  pub action : OtxRow
  pub tracked_reset : DispatchRow
  pub tracked_approval : DispatchRow
  pub tracked_action : DispatchRow
  pub known : key_id pk c0 ≡ ok (some signer)
  pub current : next_nonce_of signer c0.noncestore ≡ some nonce
  pub reset_filed : IsFiled signer tracking_id token_approve nonce reset tracked_reset
  pub approval_filed :
      IsFiled signer tracking_id token_approve (nonce + 1) approval tracked_approval
  pub action_filed : IsFiled signer tracking_id t (nonce + 2) action tracked_action
  pub reset_call : calls.reset nonce reset.raw_tx
  pub approval_call : calls.approval (nonce + 1) approval.raw_tx
  pub action_call : calls.action (nonce + 2) action.raw_tx
  pub after : c ≡ record {
    keystore = c0.keystore;
    master_key = c0.master_key;
    noncestore = set_next_nonce signer (nonce + 3) c0.noncestore;
    otx = action ∷ approval ∷ reset ∷ c0.otx;
    dispatch = tracked_action ∷ tracked_approval ∷ tracked_reset ∷ c0.dispatch;
    river_job =
        c0.river_job
        ++ pool_jobs tracking_id pk (recorded_of reset) (recorded_of approval) (recorded_of action);
  }
