-- ===== src/Server/Safety.antt =====
-- The invariant of the database over histories of the service, and the jobs that fail.
use eth_custodial.Prelude.{◌≡◌, refl, List, [], ◌∷◌, true, false, Bool}
use eth_custodial.Jobs.{
  JobArgs, dispatch, gas_refill, retrier, account_create, token_transfer, token_sweep, pool_swap,
  pool_deposit, generic_sign, token_deploy, demurrage_token_deploy, pool_deploy,
  dispatch_health_check, unlocker,
}
use eth_custodial.Store.Tables.{Db}
use eth_custodial.Store.Results.{Error, Result, ok, err}
use eth_custodial.Store.Sound.{IsSound}
use eth_custodial.World.{World, M}
use eth_custodial.World.Hoare.{Ends}
use eth_custodial.Runtime.{Env}
use eth_custodial.Pg.Safe.{Kept, Both}
use eth_custodial.Worker.Safety.Signers.{
  Atomic, token_transfer_work-Atomic, token_sweep_work-Atomic, generic_sign_work-Atomic,
  account_create_work-Atomic, gas_refill_work-Atomic,
}
use eth_custodial.Worker.Safety.Pools.{pool_swap_work-Atomic, pool_deposit_work-Atomic}
use eth_custodial.Worker.Safety.Deploys.{
  token_deploy_work-Atomic, demurrage_token_deploy_work-Atomic, pool_deploy_work-Atomic,
}
use eth_custodial.Worker.Safety.Dispatch.{
  Safe, dispatch_work-Safe, retrier_work-Safe, health_check_work-Safe,
}
use eth_custodial.Worker.Safety.Unlocks.{unlocker_work-Safe}
use eth_custodial.Sub.Safety.{Triple-process_event}
use eth_custodial.Api.{serve}
use eth_custodial.Api.Response.{Reply, ok_response, err_response}
use eth_custodial.Api.Safety.Settled.{serve-Settles}
use eth_custodial.Api.Safety.Settling.{Settles}
use eth_custodial.Server.{work, Action, job, report, request, act, history}

-- The jobs that sign transactions.
abbrev pub signs : JobArgs → Bool
signs (dispatch args) = false
signs (retrier args) = false
signs dispatch_health_check = false
signs unlocker = false
signs _ = true

-- How a run of `m` from a sound database ends.
Ends-IsSound :
    (r : Result Unit) (w : World)
    → Ends IsSound (λ _. Both IsSound (λ _. Unit)) r w
    → IsSound w.committed
Ends-IsSound (ok a) w h = h.0
Ends-IsSound (err e) w h = h

Ends-atomic :
    (c0 : Db) (r : Result Unit) (w : World)
    → Ends (Kept c0) (λ _ c _. IsSound c) r w
    → IsSound w.committed
Ends-atomic c0 (ok a) w h = h
Ends-atomic c0 (err e) w h = h.0

Safe-IsSound : {m : M Unit} → Safe m → (w : World) → IsSound w.committed → IsSound (m w).1.committed
Safe-IsSound {m} s w h = Ends-IsSound (m w).0 (m w).1 (s.at w (h, tt))

Atomic-IsSound :
    {m : M Unit} → Atomic m → (w : World) → IsSound w.committed → IsSound (m w).1.committed
Atomic-IsSound {m} s w h =
    Ends-atomic w.committed (m w).0 (m w).1 ((s w.committed).at w ((h, refl), tt))

-- However a job ends, and whichever calls fail on the way, the committed database stays sound.
work-IsSound :
    (env : Env) (args : JobArgs) (w : World)
    → IsSound w.committed
    → IsSound (work env args w).1.committed
unfolding work
work-IsSound env (dispatch args) = Safe-IsSound (dispatch_work-Safe env args)
work-IsSound env (gas_refill args) = Atomic-IsSound (gas_refill_work-Atomic env args)
work-IsSound env (retrier args) = Safe-IsSound (retrier_work-Safe env args)
work-IsSound env (account_create args) = Atomic-IsSound (account_create_work-Atomic env args)
work-IsSound env (token_transfer args) = Atomic-IsSound (token_transfer_work-Atomic env args)
work-IsSound env (token_sweep args) = Atomic-IsSound (token_sweep_work-Atomic env args)
work-IsSound env (pool_swap args) = Atomic-IsSound (pool_swap_work-Atomic env args)
work-IsSound env (pool_deposit args) = Atomic-IsSound (pool_deposit_work-Atomic env args)
work-IsSound env (generic_sign args) = Atomic-IsSound (generic_sign_work-Atomic env args)
work-IsSound env (token_deploy args) = Atomic-IsSound (token_deploy_work-Atomic env args)
work-IsSound env (demurrage_token_deploy args) =
    Atomic-IsSound (demurrage_token_deploy_work-Atomic env args)
work-IsSound env (pool_deploy args) = Atomic-IsSound (pool_deploy_work-Atomic env args)
work-IsSound env dispatch_health_check = Safe-IsSound (health_check_work-Safe env)
work-IsSound env unlocker = Safe-IsSound (unlocker_work-Safe env)

Settles-IsSound : (c0 : Db) (r : Reply) (c : Db) → Settles c0 r c → IsSound c
Settles-IsSound c0 (ok_response d p) c h = h
Settles-IsSound c0 (err_response s d x) c h = h.0

act-IsSound :
    (env : Env) (a : Action) (w : World) → IsSound w.committed → IsSound (act env a w).committed
unfolding act
act-IsSound env (job args) w h = work-IsSound env args w h
act-IsSound env (report subject msg) w h = Safe-IsSound (Triple-process_event env subject msg) w h
act-IsSound env (request r) w h =
    Settles-IsSound w.committed (serve env r w).0 (serve env r w).1.committed
      (serve-Settles env r w h)

-- From a database that is sound, any sequence of jobs, tracker messages
-- and HTTP requests, with any of the
-- outside calls failing, leads to a database that is sound: no two transactions of a signer share
-- a nonce and every nonce used lies below the signer's next one, ids are distinct, every
-- transaction has exactly one dispatch row, and every queued dispatch job names a recorded
-- transaction.
pub history-IsSound :
    (env : Env) (actions : List Action) (w : World)
    → IsSound w.committed
    → IsSound (history env actions w).committed
unfolding history
history-IsSound env [] w h = h
history-IsSound env (a ∷ rest) w h = history-IsSound env rest (act env a w) (act-IsSound env a w h)

failed_unchanged :
    (c0 : Db) (e : Error) (r : Result Unit) (w : World)
    → r ≡ err e
    → Ends (Kept c0) (λ _ c _. IsSound c) r w
    → w.committed ≡ c0
failed_unchanged c0 e (ok a) w q h = cc
failed_unchanged c0 e (err x) w q h = h.1

Atomic_lem :
    {m : M Unit} {e : Error}
    → Atomic m
    → (w : World) → IsSound w.committed
    → (m w).0 ≡ err e
    → (m w).1.committed ≡ w.committed
Atomic_lem {m} {e} s w h q =
    failed_unchanged w.committed e (m w).0 (m w).1 q ((s w.committed).at w ((h, refl), tt))

-- A signing job that fails, at whichever step, leaves the committed database, with its nonces, its
-- transactions and its job queue, as it was.
pub signing_failure :
    (env : Env) (args : JobArgs) {e : Error} (w : World)
    → signs args ≡ true
    → IsSound w.committed
    → (work env args w).0 ≡ err e
    → (work env args w).1.committed ≡ w.committed
unfolding work
signing_failure env (dispatch args) w s h q = cc
signing_failure env (gas_refill args) w s h q = Atomic_lem (gas_refill_work-Atomic env args) w h q
signing_failure env (retrier args) w s h q = cc
signing_failure env (account_create args) w s h q =
    Atomic_lem (account_create_work-Atomic env args) w h q
signing_failure env (token_transfer args) w s h q =
    Atomic_lem (token_transfer_work-Atomic env args) w h q
signing_failure env (token_sweep args) w s h q = Atomic_lem (token_sweep_work-Atomic env args) w h q
signing_failure env (pool_swap args) w s h q = Atomic_lem (pool_swap_work-Atomic env args) w h q
signing_failure env (pool_deposit args) w s h q =
    Atomic_lem (pool_deposit_work-Atomic env args) w h q
signing_failure env (generic_sign args) w s h q =
    Atomic_lem (generic_sign_work-Atomic env args) w h q
signing_failure env (token_deploy args) w s h q =
    Atomic_lem (token_deploy_work-Atomic env args) w h q
signing_failure env (demurrage_token_deploy args) w s h q =
    Atomic_lem (demurrage_token_deploy_work-Atomic env args) w h q
signing_failure env (pool_deploy args) w s h q = Atomic_lem (pool_deploy_work-Atomic env args) w h q
signing_failure env dispatch_health_check w s h q = cc
signing_failure env unlocker w s h q = cc
