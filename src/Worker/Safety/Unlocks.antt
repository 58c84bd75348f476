-- ===== src/Worker/Safety/Unlocks.antt =====
-- What a run of the unlocker leaves of the database, whichever calls fail on the way.
use eth_custodial.Prelude.{ℕ, ◌≡◌}
use eth_custodial.Store.Types.{DispatchStatus}
use eth_custodial.Store.Tables.{Db}
use eth_custodial.Store.Results.{Result, ok, err}
use eth_custodial.Store.Queries
use eth_custodial.Store.Queries.Inversion.{update_dispatch_status_after}
use eth_custodial.Store.Sound.{IsSound}
use eth_custodial.Store.Sound.Updates.{update_dispatch_status-IsSound}
use eth_custodial.Store.Sound.Rewrites.{
  IsSameBook-refl, set_otx_tx-IsSound, set_otx_hash-IsSound, set_otx_tx-IsSameBook,
  set_otx_hash-IsSameBook,
}
use eth_custodial.Store.Sound.Resent.{IsSameBook}
use eth_custodial.World.{World}
use eth_custodial.World.Hoare.{Ends}
use eth_custodial.Runtime.{Env}
use eth_custodial.Pg.Safe.{Both}
use eth_custodial.Worker.Safety.Dispatch.{Safe}
use eth_custodial.Worker.Safety.Unlocker.{IsStable, Keeps-unlocker_work}
use eth_custodial.Worker.Unlocker.{unlocker_work}

IsStable-IsSound : IsStable IsSound
IsStable-IsSound = record {
  status = update_dispatch_status-IsSound;
  tx = set_otx_tx-IsSound;
  hash = set_otx_hash-IsSound;
}

pub unlocker_work-Safe : (env : Env) → Safe (unlocker_work env)
unlocker_work-Safe env = Keeps-unlocker_work env IsStable-IsSound

status-IsSameBook :
    (c : Db) (now i : ℕ) (s : DispatchStatus) (d d' : Db)
    → IsSameBook c d
    → Queries.update_dispatch_status now i s d ≡ ok d'
    → IsSameBook c d'
status-IsSameBook c now i s d d' h e = rw (update_dispatch_status_after now i s d d' e) (record {
  keystore = h.keystore;
  master_key = h.master_key;
  noncestore = h.noncestore;
  river_job = h.river_job;
  otx = h.otx;
})

pub IsStable-IsSameBook : (c : Db) → IsStable (IsSameBook c)
IsStable-IsSameBook c = record {
  status = status-IsSameBook c;
  tx = set_otx_tx-IsSameBook c;
  hash = set_otx_hash-IsSameBook c;
}

pub Ends-IsSameBook :
    {A : Type 0} (c : Db) (r : Result A) (w : World)
    → Ends (IsSameBook c) (λ _. Both (IsSameBook c) (λ _. Unit)) r w
    → IsSameBook c w.committed
Ends-IsSameBook c (ok a) w h = h.0
Ends-IsSameBook c (err e) w h = h

-- However a run of the unlocker ends, and whatever the nodes answer, the keys, the master key, the
-- next nonces and the queue are as before, and the transactions are the same ones in the same
-- order, with their ids, tracking ids, types, signers and nonces: only their signed texts and
-- hashes may be new, and the statuses of `dispatch`.
pub unlocker_work-IsSameBook :
    (env : Env) (w : World) → IsSameBook w.committed (unlocker_work env w).1.committed
unlocker_work-IsSameBook env w =
    let k = Keeps-unlocker_work env (IsStable-IsSameBook w.committed) in
    Ends-IsSameBook w.committed (unlocker_work env w).0 (unlocker_work env w).1
      (k.at w (IsSameBook-refl w.committed, tt))
