-- ===== src/Worker/Issue/Pools/Steps.antt =====
-- The approvals and calls of internal/worker/pool_swap.go and pool_deposit.go, from any view.
use eth_custodial.Prelude.{◌≡◌, refl, String}
use eth_custodial.Jobs.{PoolSwapArgs, PoolDepositArgs}
use eth_custodial.Store.Types.{token_approve, pool_swap, pool_deposit}
use eth_custodial.Store.Tables.{Db}
use eth_custodial.World.{M, GasSettings}
use eth_custodial.World.Hoare.{Hoare-lift, Hoare-pure, ◌⨾◌, weaken}
use eth_custodial.Runtime.{Env}
use eth_custodial.Chain.{approve, withdraw, deposit}
use eth_custodial.Pg.Safe.{Triple, steady}
use eth_custodial.Worker.Pools.{reset_approval, set_approval, initiate_swap, initiate_deposit}
use eth_custodial.Worker.Safety.Steps.{Still-announce}
use eth_custodial.Worker.Issue.{Step, Step-acquire_nonce, Step-record_call}
use eth_custodial.Worker.Issue.Pools.{ApprovesNothing, ApprovesAmount, swap_calls, deposit_calls}
use eth_custodial.Worker.Issue.Calls.{AfterCall, invokes, after_call}

-- A step that is described from each view, after a description of that view.
module _ {A : Type 0} (c0 : Db) {m : M A} {B : Db → Type 0} {Q : A → Db → Db → Type 0} where
  pub from_view :
      ((b : Db) → Triple (λ c. c ≡ c0) (λ d. d ≡ b) m (λ a. Q a b))
      → Triple (λ c. c ≡ c0) B m (λ a d. (b : Db) × B b × Q a b d)
  from_view h = record {
    at = λ w p.
        (weaken (λ c d x. x) (λ a c d x. (x.0, (w.working, p.1, x.1))) (h w.working)).at w
          (p.0, refl);
  }

module _ (env : Env) (c0 b : Db) (tracking_id from token pool : String) where
  pub Step-reset_approval :
      (key : env.PrivateKey) (settings : GasSettings)
      → Step env c0
          (λ d. d ≡ b)
          (reset_approval env tracking_id from token pool key settings)
          (AfterCall b from tracking_id token_approve (ApprovesNothing env from token pool))
  unfolding reset_approval
  Step-reset_approval key settings = Step-acquire_nonce env c0 b from ⨾ λ nonce.
      Hoare-lift _ (λ c w p. p.0)
        λ input e.
          Hoare-lift _ (λ c w p. p.0)
            λ tx s. Step-record_call env c0 b tracking_id token_approve from nonce tx ⨾ λ otx.
              steady (Still-announce env tracking_id) ⨾ λ _. Hoare-pure otx λ c w p. (
                p.0,
                after_call env _ p.1 (invokes env key settings approve _ _ input nonce tx e s),
              )

  pub Step-set_approval :
      (amount : String) (key : env.PrivateKey) (settings : GasSettings)
      → Step env c0
          (λ d. d ≡ b)
          (set_approval env tracking_id from token pool amount key settings)
          (AfterCall b from tracking_id token_approve (ApprovesAmount env from token pool amount))
  unfolding set_approval
  Step-set_approval amount key settings = Step-acquire_nonce env c0 b from ⨾ λ nonce.
      Hoare-lift _ (λ c w p. p.0)
        λ bumped v.
          Hoare-lift _ (λ c w p. p.0)
            λ input e.
              Hoare-lift _ (λ c w p. p.0)
                λ tx s. Step-record_call env c0 b tracking_id token_approve from nonce tx ⨾ λ otx.
                  steady (Still-announce env tracking_id) ⨾ λ _. Hoare-pure otx λ c w p. (
                    p.0,
                    after_call env _ p.1 (λ text.
                        (bumped, v, invokes env key settings approve _ _ input nonce tx e s text)),
                  )

module _ (env : Env) (c0 b : Db) where
  pub Step-initiate_swap :
      (args : PoolSwapArgs) (key : env.PrivateKey) (settings : GasSettings)
      → Step env c0
          (λ d. d ≡ b)
          (initiate_swap env args key settings)
          (AfterCall b args.from args.tracking_id pool_swap (swap_calls env args).action)
  unfolding initiate_swap
  Step-initiate_swap args key settings = Step-acquire_nonce env c0 b args.from ⨾ λ nonce.
      Hoare-lift _ (λ c w p. p.0)
        λ amount v.
          Hoare-lift _ (λ c w p. p.0)
            λ input e.
              Hoare-lift _ (λ c w p. p.0)
                λ tx s.
                  weaken (λ c w p. p)
                    (λ otx c w p. (
                      p.0,
                      after_call env _ p.1 (λ text. (
                        amount,
                        v,
                        invokes env key settings withdraw _ _ input nonce tx e s text,
                      )),
                    ))
                    (Step-record_call env c0 b args.tracking_id pool_swap args.from nonce tx)

  pub Step-initiate_deposit :
      (args : PoolDepositArgs) (key : env.PrivateKey) (settings : GasSettings)
      → Step env c0
          (λ d. d ≡ b)
          (initiate_deposit env args key settings)
          (AfterCall b args.from args.tracking_id pool_deposit (deposit_calls env args).action)
  unfolding initiate_deposit
  Step-initiate_deposit args key settings = Step-acquire_nonce env c0 b args.from ⨾ λ nonce.
      Hoare-lift _ (λ c w p. p.0)
        λ amount v.
          Hoare-lift _ (λ c w p. p.0)
            λ input e.
              Hoare-lift _ (λ c w p. p.0)
                λ tx s.
                  weaken (λ c w p. p)
                    (λ otx c w p. (
                      p.0,
                      after_call env _ p.1 (λ text. (
                        amount,
                        v,
                        invokes env key settings deposit _ _ input nonce tx e s text,
                      )),
                    ))
                    (Step-record_call env c0 b args.tracking_id pool_deposit args.from nonce tx)
