-- ===== src/Sub/Safety.antt =====
-- The triples of the subscriber for the invariant of the tables.
use eth_custodial.Prelude.{String, ◌≡◌}
use eth_custodial.Jobs.{Bytes}
use eth_custodial.Store.Tables.{Db, Otx}
use eth_custodial.Store.Results.{Error, Result, ok, err}
use eth_custodial.Store.Queries
use eth_custodial.Store.Sound.{IsSound}
use eth_custodial.World.Hoare.{
  Still-lift, Still-ignore_error, Still-attempt, Hoare-if, Hoare-pure, Hoare-raise, ◌⨾◌,
}
use eth_custodial.Runtime.{Env, ChainEvent}
use eth_custodial.Pg
use eth_custodial.Pg.Rules.{
  Still-external, Still-send, Still-get_otx_by_tx_hash, Hoare-write, Hoare-begin, Hoare-commit,
}
use eth_custodial.Pg.Safe.{Triple, steady, Triple-update_dispatch_tx_status}
use eth_custodial.Sub.{
  activate_account, submit_referral, update_otx, with_otx, process_event, outcome,
}

activate_keypair-IsSound :
    (pk : String) (d d' : Db) → IsSound d → ok (Queries.activate_keypair pk d) ≡ ok d' → IsSound d'
unfolding Queries.activate_keypair
activate_keypair-IsSound pk d d' h e =
    let q : Queries.activate_keypair pk d ≡ d' = cc in
    rw (← q) (record {
      given_out = h.given_out;
      nonces = h.nonces;
      ids = h.ids;
      tracked = h.tracked;
      referenced = h.referenced;
      backed = h.backed;
    })

module _ (env : Env) where
  Triple-activate_key_pair :
      (pk : String) → Triple IsSound IsSound (Pg.activate_key_pair env pk) (λ _. IsSound)
  unfolding Pg.activate_key_pair
  Triple-activate_key_pair pk = steady (Still-external env) ⨾ λ _.
      Hoare-write (λ w d. ok (Queries.activate_keypair pk d)) (λ c w p. p.0)
        λ w c d d' p h. (p.0, activate_keypair-IsSound pk d d' p.1 h)

  Triple-activate_account :
      (subject : String) (e : ChainEvent)
      → Triple IsSound IsSound (activate_account env subject e) (λ _. IsSound)
  unfolding activate_account
  Triple-activate_account subject e =
      Hoare-if _ (steady (Still-lift _) ⨾ λ account. Triple-activate_key_pair account)
        (Hoare-pure tt (λ c w p. p))

  Triple-submit_referral : Triple IsSound IsSound (submit_referral env) (λ _. IsSound)
  unfolding submit_referral
  Triple-submit_referral =
      Hoare-if _ (steady (Still-ignore_error (Still-external env))) (Hoare-pure tt (λ c w p. p))

  Triple-update_otx :
      (subject : String) (e : ChainEvent) (otx : Otx)
      → Triple IsSound IsSound (update_otx env subject e otx) (λ _ _. Unit)
  unfolding update_otx
  Triple-update_otx subject e otx = Triple-activate_account subject e ⨾ λ _.
      Triple-update_dispatch_tx_status env otx.id (outcome e) ⨾ λ _.
      steady (Still-ignore_error (Still-send env _)) ⨾ λ _.
      Triple-submit_referral ⨾ λ _. Hoare-commit env (λ c w p. p.0) (λ c w p. (p.1, tt))

  Triple-with_otx :
      (subject : String) (e : ChainEvent) (r : Result Otx)
      → Triple IsSound IsSound (with_otx env subject e r) (λ _ _. Unit)
  Triple-with_otx subject e (ok otx) = Triple-update_otx subject e otx
  Triple-with_otx subject e (err Error.no_rows) = Hoare-pure tt (λ c w p. (p.0, tt))
  Triple-with_otx subject e (err x) = Hoare-raise x (λ c w p. p.0)

  pub Triple-process_event :
      (subject : String) (msg : Bytes)
      → Triple IsSound (λ _. Unit) (process_event env subject msg) (λ _ _. Unit)
  unfolding process_event
  Triple-process_event subject msg = steady (Still-lift _) ⨾ λ e.
      Hoare-begin env (λ c w p. p.0) (λ c w p. (p.0, p.0)) ⨾ λ _.
      steady (Still-attempt (Still-get_otx_by_tx_hash env e.tx_hash)) ⨾ λ r.
      Triple-with_otx subject e r
