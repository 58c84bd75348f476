-- ===== src/Worker/Dispatch/Retrier.antt =====
-- `RetrierWorker.Work` of internal/worker/retrier.go: what it changes.
use eth_custodial.Prelude.{String, List, [], ◌∷◌}
use eth_custodial.Jobs.{RetrierArgs}
use eth_custodial.Store.Tables.{Otx}
use eth_custodial.World.{World, pure, raise}
use eth_custodial.World.Inert.{IsInvisible, Inert, invisible, Inert-bind}
use eth_custodial.Runtime.{Env}
use eth_custodial.Pg
use eth_custodial.Pg.Inert.{Inert-external, Inert-begin}
use eth_custodial.Worker.Dispatch.{
  LoopEnd, returned, fell_through, loop_result, retry_loop, retry_all, retrier_work,
}

module _ (env : Env) where
  Inert-get_otx : (tracking_id : String) → Inert (Pg.get_otx_by_tracking_id env tracking_id)
  unfolding Pg.get_otx_by_tracking_id Pg.read
  Inert-get_otx tracking_id = Inert-bind _ _ (Inert-external env) (λ _ w. invisible)

  Inert-loop_result : (e : LoopEnd) → Inert (loop_result e)
  unfolding pure
  Inert-loop_result returned w = invisible
  Inert-loop_result fell_through w = invisible

  Inert-retry_all : (otx : List Otx) → Inert (retry_all env otx)
  unfolding retry_all raise
  Inert-retry_all [] w = invisible
  Inert-retry_all (v ∷ rest) w = Inert-loop_result (retry_loop (v ∷ rest)) w

  -- Whatever the statuses of the transactions of its tracking id are, a retrier job hands nothing
  -- to the chain, publishes nothing, and leaves the committed database as it was.
  pub retrier_work-IsInvisible :
      (args : RetrierArgs) (w : World) → IsInvisible w (retrier_work env args w).1
  unfolding retrier_work
  retrier_work-IsInvisible args =
      Inert-bind _ _ (Inert-begin env)
        λ _. Inert-bind _ _ (Inert-get_otx args.tracking_id) λ otx. Inert-retry_all otx
