-- ===== src/Sub/Outcome.antt =====
-- What `processEvent` of internal/sub/handler.go leaves behind: when it refuses a message, and
-- when it settles a transaction.
use eth_custodial.Prelude.{ℕ, String, ◌≡◌, refl}
use eth_custodial.Jobs.{Bytes}
use eth_custodial.Store.Types.{DispatchStatus}
use eth_custodial.Store.Tables.{Db, Otx}
use eth_custodial.Store.Results.{Error, Result, ok, err}
use eth_custodial.World.{World, M}
use eth_custodial.World.Hoare.{
  Ends, Hoare, Still-lift, Still-ignore_error, Still-attempt, Hoare-if, Hoare-pure, Hoare-raise,
  ◌⨾◌,
}
use eth_custodial.Runtime.{Env, ChainEvent}
use eth_custodial.Pg
use eth_custodial.Pg.Rules.{
  Still-external, Still-send, Still-get_otx_by_tx_hash, Hoare-write, Hoare-begin, Hoare-commit,
}
use eth_custodial.Pg.Safe.{Triple, steady}
use eth_custodial.Sub.{
  activate_account, submit_referral, update_otx, with_otx, process_event, outcome,
}

-- Until the commit, nothing that the subscriber does is seen.
module _ (env : Env) (c0 : Db) where
  abbrev Unseen : {A : Type 0} → M A → Type 0
  Unseen m = Triple (λ c. c ≡ c0) (λ _. Unit) m (λ _ _. Unit)

  abbrev Refusable : {A : Type 0} → M A → Type 0
  Refusable m = Hoare (λ c. c ≡ c0) (λ c w. (c ≡ c0) × Unit) m (λ _ _ _. Unit)

  Unseen-write : (f : World → Db → Result Db) → Unseen (Pg.write f)
  Unseen-write f = Hoare-write f (λ c w p. p.0) (λ w c d d' p h. (p.0, tt))

  Unseen-activate_account :
      (subject : String) (e : ChainEvent) → Unseen (activate_account env subject e)
  unfolding activate_account Pg.activate_key_pair
  Unseen-activate_account subject e =
      Hoare-if _
        (steady (Still-lift _) ⨾ λ account. steady (Still-external env) ⨾ λ _. Unseen-write _)
        (Hoare-pure tt (λ c w p. p))

  Unseen-update_dispatch_tx_status :
      (i : ℕ) (s : DispatchStatus) → Unseen (Pg.update_dispatch_tx_status env i s)
  unfolding Pg.update_dispatch_tx_status
  Unseen-update_dispatch_tx_status i s = steady (Still-external env) ⨾ λ _. Unseen-write _

  Unseen-submit_referral : Unseen (submit_referral env)
  unfolding submit_referral
  Unseen-submit_referral =
      Hoare-if _ (steady (Still-ignore_error (Still-external env))) (Hoare-pure tt (λ c w p. p))

  Refusable-with_otx :
      (subject : String) (e : ChainEvent) (r : Result Otx) → Refusable (with_otx env subject e r)
  unfolding update_otx
  Refusable-with_otx subject e (ok otx) = Unseen-activate_account subject e ⨾ λ _.
      Unseen-update_dispatch_tx_status otx.id (outcome e) ⨾ λ _.
      steady (Still-ignore_error (Still-send env _)) ⨾ λ _.
      Unseen-submit_referral ⨾ λ _. Hoare-commit env (λ c w p. p.0) (λ c w p. tt)
  Refusable-with_otx subject e (err Error.no_rows) = Hoare-pure tt (λ c w p. tt)
  Refusable-with_otx subject e (err x) = Hoare-raise x (λ c w p. p.0)

  Refusable-process_event :
      (subject : String) (msg : Bytes) → Refusable (process_event env subject msg)
  unfolding process_event
  Refusable-process_event subject msg = steady (Still-lift _) ⨾ λ e.
      Hoare-begin env (λ c w p. p.0) (λ c w p. (p.0, tt)) ⨾ λ _.
      steady (Still-attempt (Still-get_otx_by_tx_hash env e.tx_hash)) ⨾ λ r.
      Refusable-with_otx subject e r

refused_unchanged :
    (c0 : Db) (x : Error) (r : Result Unit) (w : World)
    → r ≡ err x
    → Ends (λ c. c ≡ c0) (λ _ _ _. Unit) r w
    → w.committed ≡ c0
refused_unchanged c0 x (ok a) w q h = cc
refused_unchanged c0 x (err y) w q h = h

-- A message whose processing fails, at whichever step, is refused and leaves the committed
-- database as it was, so that the message can be delivered again.
pub process_event_failure :
    (env : Env) (subject : String) (msg : Bytes) {x : Error} (w : World)
    → (process_event env subject msg w).0 ≡ err x
    → (process_event env subject msg w).1.committed ≡ w.committed
process_event_failure env subject msg {x} w h =
    refused_unchanged w.committed x _ _ h
      ((Refusable-process_event env w.committed subject msg).at w (refl, tt))
