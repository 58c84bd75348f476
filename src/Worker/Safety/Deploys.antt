-- ===== src/Worker/Safety/Deploys.antt =====
-- The workers of worker/token_deploy.go, demurrage_token_deploy.go and pool_deploy.go keep the
-- invariant: four and ten transactions of the system account in one go.
use eth_custodial.Prelude.{ℕ, String, List, [], ◌∷◌, All}
use eth_custodial.Jobs.{
  Bytes, Address, Job, DispatchArgs, TokenDeployArgs, DemurrageTokenDeployArgs, PoolDeployArgs,
}
use eth_custodial.Store.Types.{OtxType}
use eth_custodial.Store.Tables.{Db}
use eth_custodial.Store.Sound.{IsBacked}
use eth_custodial.World.Hoare.{Still-lift, Still-ignore_error, Hoare-pure, ◌⨾◌}
use eth_custodial.Runtime.{Env, Contract}
use eth_custodial.Pg.Rules.{Still-external, Still-load_master_signer_key}
use eth_custodial.Pg.Safe.{
  Triple, Finishes, Kept, steady, Holding, Issued, AreRecorded, Triple-begin, Finishes-commit,
  Triple-acquire_nonce, Triple-insert_many_tx,
}
use eth_custodial.Worker.Signing.{Recorded}
use eth_custodial.Worker.Deploys.{
  Signer, publish, call, set_up_token, load_signer, token_deploy_work, demurrage_token_deploy_work,
  deploy, hand_over, add_to_pool_index, finish_pool_deploy, pool_deploy_work,
}
use eth_custodial.Worker.Safety.Steps.{
  Still-get_settings, Still-announce, Triple-record_tx, job_args,
}
use eth_custodial.Worker.Safety.Signers.{Atomic}

module _ (env : Env) where
  Triple-load_signer :
      {c0 : Db} (tracking_id : String)
      → Triple (Kept c0) (λ _. Unit) (load_signer env tracking_id) (λ s. Issued [])
  unfolding load_signer
  Triple-load_signer tracking_id = Triple-begin env ⨾ λ _.
      steady (Still-load_master_signer_key env) ⨾ λ system. steady (Still-lift _) ⨾ λ key.
      steady Still-get_settings ⨾ λ settings. Hoare-pure _ (λ c w p. p)

  Triple-publish :
      {E : Db → Type 0} {txs : List DispatchArgs} (s : Signer env.PrivateKey) (t : OtxType)
      (code : Bytes) (limit nonce : ℕ)
      → Triple E
          (Holding s.public nonce txs)
          (publish env s t code limit nonce)
          (λ r. Issued (job_args s.tracking_id r ∷ txs))
  unfolding publish
  Triple-publish s t code limit nonce =
      steady (Still-lift _) ⨾ λ tx. Triple-record_tx env s.tracking_id t s.public nonce tx

  Triple-call :
      {E : Db → Type 0} {txs : List DispatchArgs} (s : Signer env.PrivateKey) (t : OtxType)
      (target : Address) (input : Bytes)
      → Triple E
          (Issued txs)
          (call env s t target input)
          (λ r. Issued (job_args s.tracking_id r ∷ txs))
  unfolding call
  Triple-call s t target input = Triple-acquire_nonce env s.public ⨾ λ nonce.
      steady (Still-lift _) ⨾ λ tx. Triple-record_tx env s.tracking_id t s.public nonce tx

  Finishes-set_up_token :
      {c0 : Db} (s : Signer env.PrivateKey) (supply mintee owner : String) (nonce : ℕ)
      (r : Recorded)
      → Finishes c0
          (Issued (job_args s.tracking_id r ∷ []))
          (set_up_token env s supply mintee owner nonce r)
  unfolding set_up_token
  Finishes-set_up_token s supply mintee owner nonce r = steady (Still-lift _) ⨾ λ _.
      Triple-call s _ _ _ ⨾ λ added. steady (Still-lift _) ⨾ λ _. steady (Still-lift _) ⨾ λ _.
      Triple-call s _ _ _ ⨾ λ minted. steady (Still-lift _) ⨾ λ _. Triple-call s _ _ _ ⨾ λ owned.
      Triple-insert_many_tx env _ (λ d a. (a.1.1.1.0, (a.1.1.0, (a.1.0, (a.0, tt))))) ⨾ λ _.
      steady (Still-announce env s.tracking_id) ⨾ λ _. Finishes-commit env

  pub token_deploy_work-Atomic : (args : TokenDeployArgs) → Atomic (token_deploy_work env args)
  unfolding token_deploy_work
  token_deploy_work-Atomic args c0 = Triple-load_signer args.tracking_id ⨾ λ s.
      Triple-acquire_nonce env s.public ⨾ λ nonce. steady (Still-lift _) ⨾ λ code.
      Triple-publish s _ code _ nonce ⨾ λ r. steady (Still-announce env args.tracking_id) ⨾ λ _.
      Finishes-set_up_token s args.initial_supply args.initial_mintee args.owner nonce r

  pub demurrage_token_deploy_work-Atomic :
      (args : DemurrageTokenDeployArgs) → Atomic (demurrage_token_deploy_work env args)
  unfolding demurrage_token_deploy_work
  demurrage_token_deploy_work-Atomic args c0 = Triple-load_signer args.tracking_id ⨾ λ s.
      Triple-acquire_nonce env s.public ⨾ λ nonce. steady (Still-lift _) ⨾ λ rate.
      steady (Still-lift _) ⨾ λ period. steady (Still-lift _) ⨾ λ decay.
      Triple-publish s _ _ _ nonce ⨾ λ r. steady (Still-announce env args.tracking_id) ⨾ λ _.
      Finishes-set_up_token s args.initial_supply args.initial_mintee args.owner nonce r

  Triple-deploy :
      {E : Db → Type 0} {txs : List DispatchArgs} (s : Signer env.PrivateKey) (t : OtxType)
      (c : Contract)
      → Triple E (Issued txs) (deploy env s t c) (λ r. Issued (job_args s.tracking_id r.0 ∷ txs))
  unfolding deploy
  Triple-deploy s t c = Triple-acquire_nonce env s.public ⨾ λ nonce. steady (Still-lift _) ⨾ λ code.
      Triple-publish s t code _ nonce ⨾ λ r. Hoare-pure _ (λ c w p. p)

  Triple-hand_over :
      {E : Db → Type 0} {txs : List DispatchArgs} (s : Signer env.PrivateKey) (a : Address)
      (owner : String)
      → Triple E
          (Issued txs)
          (hand_over env s a owner)
          (λ r. Issued (job_args s.tracking_id r ∷ txs))
  unfolding hand_over
  Triple-hand_over s a owner = steady (Still-lift _) ⨾ λ input. Triple-call s _ a input

  Triple-add_to_pool_index :
      {E : Db → Type 0} {txs : List DispatchArgs} (s : Signer env.PrivateKey) (input : Bytes)
      → Triple E
          (Issued txs)
          (add_to_pool_index env s input)
          (λ r. Issued (job_args s.tracking_id r ∷ txs))
  unfolding add_to_pool_index
  Triple-add_to_pool_index s input = Triple-acquire_nonce env s.public ⨾ λ nonce.
      steady (Still-lift _) ⨾ λ index.
      steady (Still-lift _) ⨾ λ tx. Triple-record_tx env s.tracking_id _ s.public nonce tx

  Finishes-finish_pool_deploy :
      {c0 : Db} {txs : List DispatchArgs} (s : Signer env.PrivateKey) (jobs : List Job)
      → ((d : Db) → AreRecorded txs d → All (IsBacked d.otx) jobs)
      → Finishes c0 (Issued txs) (finish_pool_deploy env s jobs)
  unfolding finish_pool_deploy
  Finishes-finish_pool_deploy s jobs backed = Triple-insert_many_tx env jobs backed ⨾ λ _.
      steady (Still-ignore_error (Still-external env)) ⨾ λ _.
      steady (Still-announce env s.tracking_id) ⨾ λ _. Finishes-commit env

  pub pool_deploy_work-Atomic : (args : PoolDeployArgs) → Atomic (pool_deploy_work env args)
  unfolding pool_deploy_work
  pool_deploy_work-Atomic args c0 = Triple-load_signer args.tracking_id ⨾ λ s.
      Triple-deploy s _ _ ⨾ λ index. Triple-deploy s _ _ ⨾ λ limiter. Triple-deploy s _ _ ⨾ λ pool.
      Triple-deploy s _ _ ⨾ λ quoter. steady (Still-lift _) ⨾ λ add_input.
      Triple-add_to_pool_index s add_input ⨾ λ added. steady (Still-lift _) ⨾ λ quoter_input.
      Triple-call s _ pool.1 quoter_input ⨾ λ quoted.
      Triple-hand_over s limiter.1 args.owner ⨾ λ r7. Triple-hand_over s index.1 args.owner ⨾ λ r8.
      Triple-hand_over s pool.1 args.owner ⨾ λ r9. Triple-hand_over s quoter.1 args.owner ⨾ λ r10.
      Finishes-finish_pool_deploy s _
        (λ d (q9, (q8, (q7, (q6, (q5, (q4, (q3, (q2, (q1, (q0, _)))))))))).
          (q0, (q1, (q2, (q3, (q4, (q5, (q6, (q7, (q8, (q9, tt)))))))))))
