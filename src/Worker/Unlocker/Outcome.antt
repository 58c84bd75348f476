-- ===== src/Worker/Unlocker/Outcome.antt =====
-- What `processOTX` leaves behind when the database answers and the chain settles the matter.
use eth_custodial.Prelude.{
  ℕ, suc, ◌≡◌, refl, sym, ap, ◌∙◌, String, true, false, Option, none, some, ◌∷◌, List, Bool-cases,
  inl, inr, ◌==◌,
}
use mathlib.Core.Path.{subst}
use eth_custodial.Jobs.{Bytes}
use eth_custodial.Store.Types.{DispatchStatus, in_network, is_status_type}
use eth_custodial.Store.Tables.{Db, Otx}
use eth_custodial.Store.Results.{Result, ok}
use eth_custodial.Store.Queries.{has_dispatch}
use eth_custodial.Store.Queries
use eth_custodial.World.{World, lift, gets, ◌>>=◌}
use eth_custodial.Runtime.{Env, Receipt}
use eth_custodial.Chain.{tick, log_sent, call_send_raw_tx}
use eth_custodial.Pg.Steps.{step, begin_step, update_step, commit_step}
use eth_custodial.Worker.Unlocker.Refusal.{Kind, nonce_low, refusal, classify}
use eth_custodial.Worker.Unlocker.Recovery.{receipt_status, set_status, with_receipt, check_receipt}
use eth_custodial.Worker.Unlocker.{on_refusal, after_resubmit, process_otx}

-- A refusal for a low nonce leaves it to the receipt.
abbrev pub mined_status : Kind → Receipt → Option DispatchStatus
mined_status nonce_low r = some (receipt_status r)
mined_status k r = none

-- The status that an answer of the node, and the receipt that is asked for next, stand for.
abbrev pub settled_status : Option String → Option (Option Receipt) → Option DispatchStatus
settled_status none r = some in_network
settled_status (some msg) (some (some r)) = mined_status (classify msg) r
settled_status (some msg) _ = none

-- The new status of a transaction, in the committed database.
abbrev pub marked : ℕ → ℕ → DispatchStatus → Db → Db
marked now i s d = record d { dispatch = Queries.set_status i now s d.dispatch }

abbrev stored : ℕ → ℕ → DispatchStatus → World → World
stored now i s w = record w {
  clock = suc (suc (suc w.clock));
  working = marked now i s w.committed;
  committed = marked now i s w.committed;
  began_at = now;
}

-- A run ends well, with the transaction's status set and its text handed to the chain.
pub record Marks (otx : Otx) (s : DispatchStatus) (raws : List Bytes) (d : Db)
    (r : Result Unit × World) : Type 0 where
  pub result : r.0 ≡ ok tt
  pub now : ℕ
  pub database : r.1.committed ≡ marked now otx.id s d
  pub handed_over : r.1.sent ≡ raws

some_injective : {A : Type 0} {a b : A} → some a ≡ some b → a ≡ b
some_injective h = cc

none-some : {A : Type 0} {a : A} → none ≡ some a → ⊥
none-some h = cc

module _ (env : Env) (calm : (t : ℕ) → env.fails t ≡ false) (otx : Otx) where
  set_status_step :
      (s : DispatchStatus) (w : World)
      → has_dispatch otx.id w.committed.dispatch ≡ true
      → is_status_type s ≡ true
      → set_status env otx.id s w ≡ (ok tt, stored (env.now (suc w.clock)) otx.id s w)
  unfolding set_status
  set_status_step s w h t =
      step _ _ (begin_step env calm w)
      ∙ step _ _ (update_step env calm otx.id s _ h t)
      ∙ commit_step env calm _

  Marks-set_status :
      (s : DispatchStatus) (w : World)
      → has_dispatch otx.id w.committed.dispatch ≡ true
      → is_status_type s ≡ true
      → Marks otx s w.sent w.committed (set_status env otx.id s w)
  Marks-set_status s w h t =
      rw (set_status_step s w h t)
        (record { result = refl; now = env.now (suc w.clock); database = refl; handed_over = refl })

  receipt_status_known : (r : Receipt) → is_status_type (receipt_status r) ≡ true
  unfolding is_status_type
  receipt_status_known r = elim (Bool-cases (r.status == 1)) [
    | inl t ↦ rw t refl
    | inr f ↦ rw f refl
  ]

  Marks-check_receipt :
      (r : Receipt) (w : World)
      → env.tx_receipt w.clock otx.tx_hash ≡ some (some r)
      → has_dispatch otx.id w.committed.dispatch ≡ true
      → Marks otx (receipt_status r) w.sent w.committed (check_receipt env otx w)
  unfolding check_receipt with_receipt tick lift ◌>>=◌
  Marks-check_receipt r w e h = rw e (
      Marks-set_status (receipt_status r) (record w { clock = suc w.clock }) h
        (receipt_status_known r))

  Marks-on_refusal :
      (msg : String) (k : Kind) (r : Option (Option Receipt)) (s : DispatchStatus) (w : World)
      → classify msg ≡ k
      → env.tx_receipt w.clock otx.tx_hash ≡ r
      → settled_status (some msg) r ≡ some s
      → has_dispatch otx.id w.committed.dispatch ≡ true
      → Marks otx s w.sent w.committed (on_refusal env otx msg k w)
  Marks-on_refusal msg k none s w c e q h = cc
  Marks-on_refusal msg k (some none) s w c e q h = cc
  Marks-on_refusal msg nonce_low (some (some r)) s w c e q h =
      let same : receipt_status r ≡ s = some_injective (sym (ap (λ k. mined_status k r) c) ∙ q) in
      subst (λ x. Marks otx x w.sent w.committed (check_receipt env otx w)) same
        (Marks-check_receipt r w e h)
  Marks-on_refusal msg k (some (some r)) s w c e q h =
      elim (none-some (sym (ap (λ k. mined_status k r) c) ∙ q)) [ ]

  Marks-after_resubmit :
      (a : Option String) (r : Option (Option Receipt)) (s : DispatchStatus) (w : World)
      → env.tx_receipt w.clock otx.tx_hash ≡ r
      → settled_status a r ≡ some s
      → has_dispatch otx.id w.committed.dispatch ≡ true
      → Marks otx s w.sent w.committed (after_resubmit env otx a w)
  unfolding after_resubmit is_status_type
  Marks-after_resubmit none r s w e q h =
      subst (λ x. Marks otx x w.sent w.committed (set_status env otx.id in_network w))
        (some_injective q) (Marks-set_status in_network w h refl)
  Marks-after_resubmit (some msg) r s w e q h = Marks-on_refusal msg (classify msg) r s w refl e q h

-- When the database answers: a stuck transaction that the node takes is `IN_NETWORK`, and one that
-- it refuses for a low nonce and that has a receipt is `SUCCESS` or `REVERTED` by the receipt's
-- status; the run ends well, the transaction's text was handed to the chain once, and nothing else
-- of the database changed.
pub process_otx-Marks :
    (env : Env)
    → ((t : ℕ) → env.fails t ≡ false)
    → (otx : Otx) (raw : Bytes) (s : DispatchStatus) (w : World)
    → env.hex_decode otx.raw_tx ≡ some raw
    → has_dispatch otx.id w.committed.dispatch ≡ true
    → settled_status
        (refusal (env.send_raw_tx w.clock raw))
        (env.tx_receipt (suc w.clock) otx.tx_hash)
      ≡ some s
    → Marks otx s (raw ∷ w.sent) w.committed (process_otx env otx w)
unfolding process_otx call_send_raw_tx tick log_sent gets lift ◌>>=◌
process_otx-Marks env calm otx raw s w d h q = rw d (
    Marks-after_resubmit env calm otx (refusal (env.send_raw_tx w.clock raw)) _ s
      (record w { clock = suc w.clock; sent = raw ∷ w.sent }) refl q h)
