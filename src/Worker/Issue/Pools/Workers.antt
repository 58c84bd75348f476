-- ===== src/Worker/Issue/Pools/Workers.antt =====
-- The workers of internal/worker/pool_swap.go and pool_deposit.go against the contract.
use eth_custodial.Prelude.{◌≡◌, refl, String, sym}
use eth_custodial.Jobs.{PoolSwapArgs, PoolDepositArgs}
use eth_custodial.Store.Types.{OtxType, token_approve, pool_swap, pool_deposit}
use eth_custodial.Store.Tables.{Db}
use eth_custodial.Store.Results.{Result, ok, err, ok_injective}
use eth_custodial.Store.Queries.{add_jobs}
use eth_custodial.World.{World, M}
use eth_custodial.World.Hoare.{Ends, Hoare, Still-lift, ◌⨾◌, weaken}
use eth_custodial.Runtime.{Env}
use eth_custodial.Pg
use eth_custodial.Pg.Rules.{Still-load_private_key, Still-external, Hoare-write, Hoare-commit}
use eth_custodial.Pg.Safe.{steady}
use eth_custodial.Worker.Signing.{Recorded}
use eth_custodial.Worker.Pools.{finish_pool, pool_swap_work, pool_deposit_work}
use eth_custodial.Worker.Safety.Steps.{Still-get_settings, Still-announce}
use eth_custodial.Worker.Issue.{Step, Step-begin}
use eth_custodial.Worker.Issue.Pools.{Calls, swap_calls, deposit_calls, pool_jobs, ThreeIssued}
use eth_custodial.Worker.Issue.Calls.{AfterCall}
use eth_custodial.Worker.Issue.Pools.Views.{Signed3, Queued3, Queued3-ThreeIssued}
use eth_custodial.Worker.Issue.Pools.Steps.{
  from_view, Step-reset_approval, Step-set_approval, Step-initiate_swap, Step-initiate_deposit,
}

module _ (env : Env) (c0 : Db) {pk tracking_id : String} {t : OtxType} {calls : Calls} where
  Finish :
      (x y z : Recorded)
      → Hoare
          (λ c. c ≡ c0)
          (λ c w. (c ≡ c0) × Signed3 c0 pk tracking_id t calls x y z w)
          (finish_pool env tracking_id pk x y z)
          (λ _ c w. ThreeIssued pk tracking_id t calls c0 c)
  unfolding finish_pool Pg.insert_many_tx
  Finish x y z =
      (steady (Still-external env) ⨾ λ _.
      Hoare-write {Q = λ c w. (c ≡ c0) × Queued3 c0 pk tracking_id t calls w}
        (λ w d. ok (add_jobs (pool_jobs tracking_id pk x y z) d)) (λ c w p. p.0)
        λ w c d d' p h. (
          p.0,
          record {
            reset = x;
            approval = y;
            action = z;
            before = d;
            signed = p.1;
            queued = sym (ok_injective h);
          },
        ))
      ⨾ λ _. steady (Still-announce env tracking_id) ⨾ λ _.
          Hoare-commit env (λ c w p. p.0)
            (λ c w p. Queued3-ThreeIssued pk tracking_id t calls c0 w p.1)

-- A run from the committed database `c0` that completes keeps the contract.
abbrev IssuesThree : String → String → OtxType → Calls → M Unit → Db → Type 0
IssuesThree pk tracking_id t calls m c0 =
    Hoare (λ c. c ≡ c0) (λ c w. (c ≡ c0) × Unit) m
      (λ _ c w. ThreeIssued pk tracking_id t calls c0 c)

abbrev Second : Db → String → String → Calls → Recorded → Recorded → Db → Type 0
Second c0 pk tracking_id calls x y d =
    (b : Db) × AfterCall c0 pk tracking_id token_approve calls.reset x b
    × AfterCall b pk tracking_id token_approve calls.approval y d

module _ (env : Env) (c0 : Db) where
  Step-third :
      {pk tracking_id : String} {t : OtxType} (calls : Calls) {x y : Recorded} {m : M Recorded}
      → ((b : Db) → Step env c0 (λ d. d ≡ b) m (AfterCall b pk tracking_id t calls.action))
      → Step env c0 (Second c0 pk tracking_id calls x y) m (Signed3 c0 pk tracking_id t calls x y)
  Step-third calls s =
      weaken (λ c w p. p)
        (λ z c w p. (
          p.0,
          record {
            view1 = p.1.1.0;
            view2 = p.1.0;
            first = p.1.1.1;
            second = p.1.1.2;
            third = p.1.2;
          },
        ))
        (from_view c0 s)

  pool_swap_work-Issues :
      (args : PoolSwapArgs)
      → IssuesThree args.from args.tracking_id pool_swap
          (swap_calls env args)
          (pool_swap_work env args)
          c0
  unfolding pool_swap_work
  pool_swap_work-Issues args = Step-begin env c0 ⨾ λ _.
      steady (Still-load_private_key env args.from) ⨾ λ keypair. steady (Still-lift _) ⨾ λ key.
      steady Still-get_settings ⨾ λ settings.
      Step-reset_approval env c0 c0 args.tracking_id args.from args.from_token_address
        args.pool_address key settings
      ⨾ λ x.
          from_view c0 (λ b.
            Step-set_approval env c0 b args.tracking_id args.from args.from_token_address
              args.pool_address args.amount key settings)
          ⨾ λ y.
              Step-third (swap_calls env args) (λ b. Step-initiate_swap env c0 b args key settings)
              ⨾ λ z. Finish env c0 x y z

  pool_deposit_work-Issues :
      (args : PoolDepositArgs)
      → IssuesThree args.from args.tracking_id pool_deposit
          (deposit_calls env args)
          (pool_deposit_work env args)
          c0
  unfolding pool_deposit_work
  pool_deposit_work-Issues args = Step-begin env c0 ⨾ λ _.
      steady (Still-load_private_key env args.from) ⨾ λ keypair. steady (Still-lift _) ⨾ λ key.
      steady Still-get_settings ⨾ λ settings.
      Step-reset_approval env c0 c0 args.tracking_id args.from args.token_address args.pool_address
        key settings
      ⨾ λ x.
          from_view c0 (λ b.
            Step-set_approval env c0 b args.tracking_id args.from args.token_address
              args.pool_address args.amount key settings)
          ⨾ λ y.
              Step-third (deposit_calls env args)
                (λ b. Step-initiate_deposit env c0 b args key settings)
              ⨾ λ z. Finish env c0 x y z

completed_three :
    {pk tracking_id : String} {t : OtxType} {calls : Calls} (c0 : Db) (r : Result Unit) (w : World)
    → r ≡ ok tt
    → Ends (λ c. c ≡ c0) (λ _ c _. ThreeIssued pk tracking_id t calls c0 c) r w
    → ThreeIssued pk tracking_id t calls c0 w.committed
completed_three c0 (ok a) w q h = h
completed_three c0 (err e) w q h = cc

IssuesThree-completed :
    {pk tracking_id : String} {t : OtxType} {calls : Calls} {m : M Unit} (w : World)
    → IssuesThree pk tracking_id t calls m w.committed
    → (m w).0 ≡ ok tt
    → ThreeIssued pk tracking_id t calls w.committed (m w).1.committed
IssuesThree-completed {m} w s h = completed_three w.committed (m w).0 (m w).1 h (s.at w (refl, tt))

-- A pool swap that completes gave the account its next three nonces, without a gap, and recorded
-- under them, pending and in this order, the texts of three signed calls: the token approves the
-- pool for 0, the token approves it for the amount plus 5%, and the pool swaps the amount; it
-- queued their dispatches in this order and a gas refill of the account. Nothing else of the
-- database changed.
pub pool_swap_work-ThreeIssued :
    (env : Env) (args : PoolSwapArgs) (w : World)
    → (pool_swap_work env args w).0 ≡ ok tt
    → ThreeIssued args.from args.tracking_id pool_swap
        (swap_calls env args)
        w.committed
        (pool_swap_work env args w).1.committed
pool_swap_work-ThreeIssued env args w =
    IssuesThree-completed w (pool_swap_work-Issues env w.committed args)

-- A pool deposit that completes keeps the same contract, with the deposit as its third
-- transaction.
pub pool_deposit_work-ThreeIssued :
    (env : Env) (args : PoolDepositArgs) (w : World)
    → (pool_deposit_work env args w).0 ≡ ok tt
    → ThreeIssued args.from args.tracking_id pool_deposit
        (deposit_calls env args)
        w.committed
        (pool_deposit_work env args w).1.committed
pool_deposit_work-ThreeIssued env args w =
    IssuesThree-completed w (pool_deposit_work-Issues env w.committed args)
