-- ===== src/Sub/Settle.antt =====
-- What `processEvent` of internal/sub/handler.go does with a transaction that the custodial
-- service has signed, when no call fails.
use eth_custodial.Prelude.{
  ℕ, suc, String, ◌≡◌, refl, ◌∙◌, ap, Bool, true, false, ◌&&◌, Option, none, some, if◌then◌else◌,
  str_eq, Bool-cases, inl, inr,
}
use eth_custodial.Jobs.{Bytes}
use eth_custodial.Store.Types.{DispatchStatus, success, reverted, is_status_type}
use eth_custodial.Store.Tables.{Db, Otx}
use eth_custodial.Store.Results.{ok, err, or_error, no_rows, bad_json}
use eth_custodial.Store.Queries
use eth_custodial.Store.Queries.{has_dispatch, set_status}
use eth_custodial.Store.Selects
use eth_custodial.World.{World, lift, pure, attempt, ignore_error}
use eth_custodial.Runtime.{Env, ChainEvent}
use eth_custodial.Pg
use eth_custodial.Pg.Steps.{step, external_step, update_step, send_step, commit_step, begin_step}
use eth_custodial.Sub.{
  activate_account, submit_referral, update_otx, with_otx, process_event, outcome,
}

-- The status that a message reports.
abbrev pub final_status : Bool → DispatchStatus
final_status true = success
final_status false = reverted

-- Only the report of a custodial registration that succeeded is about an account's key.
abbrev pub is_registration : String → ChainEvent → Bool
is_registration subject e = e.success && str_eq subject "TRACKER.CUSTODIAL_REGISTRATION"

-- Such a report names the account; of any other message nothing is asked.
abbrev pub NamesItsAccount : String → ChainEvent → Type 0
NamesItsAccount subject e =
    is_registration subject e ≡ true → (account : String) × (e.account ≡ some account)

abbrev pub with_own_key : Option String → Db → Db
with_own_key none d = d
with_own_key (some account) d = Queries.activate_keypair account d

abbrev pub activated : String → ChainEvent → Db → Db
activated subject e d = if is_registration subject e then with_own_key e.account d else d

abbrev pub settled : ℕ → Otx → Bool → Db → Db
settled now otx succeeded d = record d {
  dispatch = set_status otx.id now (final_status succeeded) d.dispatch;
}

outcome_lem : (e : ChainEvent) → outcome e ≡ final_status e.success
outcome_lem e = by_success e.success
  where
    by_success : (b : Bool) → (if b then success else reverted) ≡ final_status b
    by_success true = refl
    by_success false = refl

is_status_type-outcome : (e : ChainEvent) → is_status_type (outcome e) ≡ true
unfolding is_status_type
is_status_type-outcome e = by_success e.success
  where
    by_success : (b : Bool) → is_status_type (if b then success else reverted) ≡ true
    by_success true = refl
    by_success false = refl

-- No transaction and no status is touched with the key.
pub activated_keeps :
    (subject : String) (e : ChainEvent) (d : Db)
    → ((activated subject e d).otx ≡ d.otx) × ((activated subject e d).dispatch ≡ d.dispatch)
unfolding Queries.activate_keypair
activated_keeps subject e d = elim (Bool-cases (is_registration subject e)) [
  | inl t ↦ rw t (keyed e.account)
  | inr f ↦ rw f (refl, refl)
]
  where
    keyed :
        (o : Option String)
        → ((with_own_key o d).otx ≡ d.otx) × ((with_own_key o d).dispatch ≡ d.dispatch)
    keyed none = (refl, refl)
    keyed (some account) = (refl, refl)

tracked_activated :
    (subject : String) (e : ChainEvent) (i : ℕ) (d : Db)
    → has_dispatch i d.dispatch ≡ true
    → has_dispatch i (activated subject e d).dispatch ≡ true
tracked_activated subject e i d k = ap (has_dispatch i) (activated_keeps subject e d).1 ∙ k

-- The world in which the transaction has been looked up.
abbrev looked_up : Env → World → World
looked_up env w = record w {
  clock = suc (suc w.clock);
  working = w.committed;
  began_at = env.now (suc w.clock);
}

module _ (env : Env) (calm : (t : ℕ) → env.fails t ≡ false) where
  get_otx_step :
      (hash : String) (w : World)
      → attempt (Pg.get_otx_by_tx_hash env hash) w ≡ (
        ok (Selects.get_otx_by_tx_hash env.int_text hash w.working),
        record w { clock = suc w.clock },
      )
  unfolding attempt Pg.get_otx_by_tx_hash Pg.read
  get_otx_step hash w = rw (step _ _ (external_step env calm w)) refl

  activate_key_pair_step :
      (pk : String) (w : World)
      → Pg.activate_key_pair env pk w
        ≡ (ok tt, record w { clock = suc w.clock; working = Queries.activate_keypair pk w.working })
  unfolding Pg.activate_key_pair Pg.write
  activate_key_pair_step pk w = step _ _ (external_step env calm w)

  activate_account_step :
      (subject : String) (e : ChainEvent) (w : World)
      → NamesItsAccount subject e
      → activate_account env subject e w ≡ (
        ok tt,
        record w {
          clock = if is_registration subject e then suc w.clock else w.clock;
          working = activated subject e w.working;
        },
      )
  unfolding activate_account pure lift
  activate_account_step subject e w h = elim (Bool-cases (is_registration subject e)) [
    | inl t ↦
        let (account, named) = h t in
        rw (t, named) (step _ _ refl ∙ activate_key_pair_step account w)
    | inr f ↦ rw f refl
  ]

  submit_referral_step :
      (w : World)
      → submit_referral env w ≡ (
        ok tt,
        record w { clock = if env.activate_divvi_submissions then suc w.clock else w.clock },
      )
  unfolding submit_referral ignore_error pure Pg.external
  submit_referral_step w = elim (Bool-cases env.activate_divvi_submissions) [
    | inl t ↦ rw (t, external_step env calm w) refl
    | inr f ↦ rw f refl
  ]

  update_otx_step :
      (subject : String) (e : ChainEvent) (otx : Otx) (w : World)
      → NamesItsAccount subject e
      → has_dispatch otx.id w.working.dispatch ≡ true
      → ((update_otx env subject e otx w).0 ≡ ok tt)
        × ((update_otx env subject e otx w).1.committed
            ≡ settled w.began_at otx e.success (activated subject e w.working))
  unfolding update_otx
  update_otx_step subject e otx w h k =
      let run =
        step _ _ (activate_account_step subject e w h)
        ∙ step _ _ (
            update_step env calm otx.id (outcome e) _
              (tracked_activated subject e otx.id w.working k) (is_status_type-outcome e))
        ∙ step _ _ (send_step env calm _ _)
        ∙ step _ _ (submit_referral_step _)
        ∙ commit_step env calm _ in
      (
        ap (λ r. r.0) run,
        ap (λ r. r.1.committed) run
            ∙ ap
                (λ s. record (activated subject e w.working) {
                  dispatch =
                      set_status otx.id w.began_at s (activated subject e w.working).dispatch;
                })
                (outcome_lem e),
      )

-- For a message about a transaction of ours that is tracked, when no call fails, `processEvent`
-- succeeds and commits the final status: SUCCESS where the message reports success, and REVERTED
-- where it does not. Where the message reports that a custodial registration succeeded, it has to
-- name the account, and the key of that account is activated with it; any other message may name an
-- account or none, and changes no key.
pub process_event_settles :
    (env : Env) (subject : String) (msg : Bytes) (e : ChainEvent) (otx : Otx) (w : World)
    → ((t : ℕ) → env.fails t ≡ false)
    → env.unmarshal_event msg ≡ some e
    → NamesItsAccount subject e
    → Selects.get_otx_by_tx_hash env.int_text e.tx_hash w.committed ≡ ok otx
    → has_dispatch otx.id w.committed.dispatch ≡ true
    → ((process_event env subject msg w).0 ≡ ok tt)
      × ((process_event env subject msg w).1.committed
          ≡ settled (env.now (suc w.clock)) otx e.success (activated subject e w.committed))
unfolding process_event lift
process_event_settles env subject msg e otx w calm u a q k =
    let run : process_event env subject msg w ≡ update_otx env subject e otx (looked_up env w) =
      step _ _ (ap (λ r. lift (or_error r bad_json) w) u)
      ∙ step _ _ (begin_step env calm w)
      ∙ step _ _ (get_otx_step env calm e.tx_hash _)
      ∙ ap (λ r. with_otx env subject e r (looked_up env w)) q in
    rw run (update_otx_step env calm subject e otx (looked_up env w) a k)

-- A message about a hash that no transaction of ours has is accepted and changes nothing.
pub process_event_unknown :
    (env : Env) (subject : String) (msg : Bytes) (e : ChainEvent) (w : World)
    → ((t : ℕ) → env.fails t ≡ false)
    → env.unmarshal_event msg ≡ some e
    → Selects.get_otx_by_tx_hash env.int_text e.tx_hash w.committed ≡ err no_rows
    → ((process_event env subject msg w).0 ≡ ok tt)
      × ((process_event env subject msg w).1.committed ≡ w.committed)
      × ((process_event env subject msg w).1.events ≡ w.events)
unfolding process_event pure lift
process_event_unknown env subject msg e w calm u q =
    let run : process_event env subject msg w ≡ (ok tt, looked_up env w) =
      step _ _ (ap (λ r. lift (or_error r bad_json) w) u)
      ∙ step _ _ (begin_step env calm w)
      ∙ step _ _ (get_otx_step env calm e.tx_hash _)
      ∙ ap (λ r. with_otx env subject e r (looked_up env w)) q in
    rw run (refl, refl, refl)
