-- ===== src/Api/Safety/Reading.antt =====
-- The handlers that only read, and the one for a new account.
use eth_custodial.Prelude.{String, Option, [], ◌∷◌}
use eth_custodial.Prelude.Int.{ℤ}
use eth_custodial.Jobs.{Address, Job}
use eth_custodial.Store.Tables.{Db}
use eth_custodial.Store.Sound.{IsSound, IsBacked}
use eth_custodial.Store.Sound.Updates.{add_jobs-IsSound}
use eth_custodial.World.Hoare.{
  Hoare, Still, ◌⨾◌, still, Hoare-pure, Still-bind, Still-lift, Still-pure, Still-if,
}
use eth_custodial.Runtime.{Env}
use eth_custodial.Pg
use eth_custodial.Pg.Rules.{
  Still-external, Still-moment, Still-load_master_signer_key, Still-peek_nonce, Still-check_keypair,
  Still-get_otx_by_tracking_id, Still-get_otx_by_account, Still-get_otx_by_account_next,
  Still-get_otx_by_account_previous,
}
use eth_custodial.Pg.Safe.{Kept, Both, steady}
use eth_custodial.Worker.Safety.Steps.{Still-tick}
use eth_custodial.Api.Pools.{call_quote, pool_quote_valid, pool_quote_handler}
use eth_custodial.Api.Contracts.{}
use eth_custodial.Api.Accounts.{
  account_create_handler, call_account, account_status_valid, account_status_handler,
  system_info_handler,
}
use eth_custodial.Api.Otx.{
  Pagination, track_otx_valid, track_otx_handler, fetch_page, otx_by_address_valid,
  get_otx_by_address_handler,
}
use eth_custodial.Api.Rpc.{}
use eth_custodial.Api.Requests.{LoginRequest, PoolSwapRequest, OtxByAccountRequest}
use eth_custodial.Api.Auth.{login_valid, login_handler}
use eth_custodial.Api.Safety.Rules.{Hoare-on_postgres, Hoare-with_request}
use eth_custodial.Api.Safety.Asks.{}
use eth_custodial.Api.{}
use eth_custodial.Api.Safety.Settling.{Settled, Hoare-look, Hoare-open, Hoare-close}

module _ (env : Env) where
  pub system_info_handler-Settled : Settled (system_info_handler env)
  unfolding system_info_handler
  system_info_handler-Settled c0 =
      Hoare-on_postgres (λ s d x c v p. p) (Hoare-open env)
        λ _. Hoare-look (Still-load_master_signer_key env) λ key. Hoare-close env _ _

  pub track_otx_handler-Settled : (b : Option String) → Settled (track_otx_handler env b)
  unfolding track_otx_handler track_otx_valid
  track_otx_handler-Settled b c0 =
      Hoare-with_request _ b _ (λ s d x c v p. p.0)
        λ id v.
          Hoare-on_postgres (λ s d x c v p. p) (Hoare-open env)
            λ _. Hoare-look (Still-get_otx_by_tracking_id env id) λ otx. Hoare-close env _ _

  Still-fetch_page : (p : Pagination) → Still (fetch_page env p)
  unfolding fetch_page
  Still-fetch_page p = Still-if p.first_page (Still-get_otx_by_account env _ _) (
      Still-if p.request.next (Still-get_otx_by_account_next env _ _ _)
        (Still-get_otx_by_account_previous env _ _ _))

  pub get_otx_by_address_handler-Settled :
      (b : Option OtxByAccountRequest) → Settled (get_otx_by_address_handler env b)
  unfolding get_otx_by_address_handler otx_by_address_valid
  get_otx_by_address_handler-Settled b c0 =
      Hoare-with_request _ b _ (λ s d x c v p. p.0)
        λ q v.
          Hoare-on_postgres (λ s d x c v p. p) (Hoare-open env)
            λ _. Hoare-look (Still-fetch_page _) λ otx. Hoare-close env _ _

  Still-call_account : (a : Address) → Still (call_account env a)
  unfolding call_account
  Still-call_account a =
      Still-bind Still-tick
        λ t. Still-bind (Still-lift _) λ n. Still-bind (Still-lift _) λ b. Still-pure _

  pub account_status_handler-Settled : (b : Option String) → Settled (account_status_handler env b)
  unfolding account_status_handler account_status_valid
  account_status_handler-Settled b c0 =
      Hoare-with_request _ b _ (λ s d x c v p. p.0)
        λ a v. still (λ c w p. p.0) (Still-call_account _) ⨾ λ n. Hoare-open env ⨾ λ _.
          Hoare-look (Still-peek_nonce env a)
            λ i. Hoare-look (Still-check_keypair env a) λ b. Hoare-close env _ _

  Still-call_quote : (req : PoolSwapRequest) (n : ℤ) → Still (call_quote env req n)
  unfolding call_quote
  Still-call_quote req n = Still-bind Still-tick λ t. Still-lift _

  pub pool_quote_handler-Settled : (b : Option PoolSwapRequest) → Settled (pool_quote_handler env b)
  unfolding pool_quote_handler pool_quote_valid
  pool_quote_handler-Settled b c0 =
      Hoare-with_request _ b _ (λ s d x c v p. p.0)
        λ q v. steady (Still-lift _) ⨾ λ n.
          steady (Still-call_quote q n) ⨾ λ out. Hoare-pure _ (λ c w p. p.0.0)

  pub login_handler-Settled : (b : Option LoginRequest) → Settled (login_handler env b)
  unfolding login_handler login_valid
  login_handler-Settled b c0 =
      Hoare-with_request _ b _ (λ s d x c v p. p.0)
        λ q v. steady (Still-moment env) ⨾ λ t.
          steady (Still-lift _) ⨾ λ token. Hoare-pure _ (λ c w p. p.0.0)

  Hoare-insert :
      {c0 : Db} (j : Job)
      → ((d : Db) → IsBacked d.otx j)
      → Hoare (Kept c0) (Both (Kept c0) (λ _. Unit)) (Pg.insert env j) (λ _ c w. IsSound c)
  unfolding Pg.insert Pg.now_committed
  Hoare-insert j b = steady (Still-external env) ⨾ λ _. record {
    at = λ w p. add_jobs-IsSound (j ∷ []) w.committed p.0.0 (b w.committed, tt);
  }

  pub account_create_handler-Settled : Settled (account_create_handler env)
  unfolding account_create_handler
  account_create_handler-Settled c0 = steady (Still-moment env) ⨾ λ t.
      steady (Still-lift _) ⨾ λ key_pair. Hoare-insert _ (λ d. tt) ⨾ λ _. Hoare-pure _ (λ c w p. p)
