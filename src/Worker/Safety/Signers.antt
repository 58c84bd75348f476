-- ===== src/Worker/Safety/Signers.antt =====
-- The triples of the workers of worker/token_transfer.go, token_sweep.go, generic_sign.go,
-- account_create.go and gas_refill.go for the invariant of the tables.
use eth_custodial.Prelude.{[]}
use eth_custodial.Jobs.{
  TokenTransferArgs, TokenSweepArgs, GenericSignArgs, AccountCreateArgs, GasRefillArgs,
}
use eth_custodial.Store.Tables.{Db}
use eth_custodial.World.{M}
use eth_custodial.World.Hoare.{Still-lift, Hoare-if, Hoare-pure, ◌⨾◌}
use eth_custodial.Runtime.{Env}
use eth_custodial.Pg.Rules.{Still-load_private_key, Still-load_master_signer_key, Still-moment}
use eth_custodial.Pg.Safe.{
  Finishes, steady, Issued, Triple-begin, Finishes-commit, Triple-acquire_nonce,
  Triple-insert_many_tx, Triple-insert_key_pair,
}
use eth_custodial.Worker.Transfers.{token_transfer_work, token_sweep_work, generic_sign_work}
use eth_custodial.Worker.System.{account_create_work, give_gas, gas_refill_work}
use eth_custodial.Worker.Safety.Steps.{
  Still-get_settings, Still-call_next_time, Still-call_check, Still-announce, Triple-record_tx,
}

-- A worker that returns leaves the committed database sound, and one that fails leaves it as it
-- was.
abbrev pub Atomic : M Unit → Type 0
Atomic m = (c0 : Db) → Finishes c0 (λ _. Unit) m

module _ (env : Env) where
  pub token_transfer_work-Atomic :
      (args : TokenTransferArgs) → Atomic (token_transfer_work env args)
  unfolding token_transfer_work
  token_transfer_work-Atomic args c0 = Triple-begin env ⨾ λ _.
      steady (Still-load_private_key env args.from) ⨾ λ keypair. steady (Still-lift _) ⨾ λ key.
      Triple-acquire_nonce env args.from ⨾ λ nonce. steady (Still-lift _) ⨾ λ amount.
      steady (Still-lift _) ⨾ λ input. steady Still-get_settings ⨾ λ settings.
      steady (Still-lift _) ⨾ λ tx.
      Triple-record_tx env args.tracking_id _ args.from nonce tx ⨾ λ otx.
      Triple-insert_many_tx env _ (λ d r. (r.0, (tt, tt))) ⨾ λ _.
      steady (Still-announce env args.tracking_id) ⨾ λ _. Finishes-commit env

  pub token_sweep_work-Atomic : (args : TokenSweepArgs) → Atomic (token_sweep_work env args)
  unfolding token_sweep_work
  token_sweep_work-Atomic args c0 = Triple-begin env ⨾ λ _.
      steady (Still-load_private_key env args.from) ⨾ λ keypair. steady (Still-lift _) ⨾ λ key.
      Triple-acquire_nonce env args.from ⨾ λ nonce. steady (Still-lift _) ⨾ λ input.
      steady Still-get_settings ⨾ λ settings. steady (Still-lift _) ⨾ λ tx.
      Triple-record_tx env args.tracking_id _ args.from nonce tx ⨾ λ otx.
      Triple-insert_many_tx env _ (λ d r. (r.0, tt)) ⨾ λ _.
      steady (Still-announce env args.tracking_id) ⨾ λ _. Finishes-commit env

  pub generic_sign_work-Atomic : (args : GenericSignArgs) → Atomic (generic_sign_work env args)
  unfolding generic_sign_work
  generic_sign_work-Atomic args c0 = Triple-begin env ⨾ λ _.
      steady (Still-load_private_key env args.from) ⨾ λ keypair. steady (Still-lift _) ⨾ λ key.
      Triple-acquire_nonce env args.from ⨾ λ nonce. steady (Still-lift _) ⨾ λ value.
      steady Still-get_settings ⨾ λ settings. steady (Still-lift _) ⨾ λ tx.
      Triple-record_tx env args.tracking_id _ args.from nonce tx ⨾ λ otx.
      Triple-insert_many_tx env _ (λ d r. (r.0, (tt, tt))) ⨾ λ _.
      steady (Still-announce env args.tracking_id) ⨾ λ _. Finishes-commit env

  pub account_create_work-Atomic :
      (args : AccountCreateArgs) → Atomic (account_create_work env args)
  unfolding account_create_work
  account_create_work-Atomic args c0 = Triple-begin env ⨾ λ _.
      Triple-insert_key_pair env args.key_pair ⨾ λ _.
      steady (Still-load_master_signer_key env) ⨾ λ system. steady (Still-lift _) ⨾ λ key.
      Triple-acquire_nonce env system.public ⨾ λ nonce. steady (Still-lift _) ⨾ λ input.
      steady Still-get_settings ⨾ λ settings. steady (Still-lift _) ⨾ λ tx.
      Triple-record_tx env args.tracking_id _ system.public nonce tx ⨾ λ otx.
      Triple-insert_many_tx env _ (λ d r. (r.0, tt)) ⨾ λ _.
      steady (Still-announce env args.tracking_id) ⨾ λ _. Finishes-commit env

  Finishes-give_gas : (args : GasRefillArgs) (c0 : Db) → Finishes c0 (Issued []) (give_gas env args)
  unfolding give_gas
  Finishes-give_gas args c0 = steady (Still-load_master_signer_key env) ⨾ λ system.
      steady (Still-lift _) ⨾ λ key. Triple-acquire_nonce env system.public ⨾ λ nonce.
      steady (Still-lift _) ⨾ λ account. steady (Still-lift _) ⨾ λ input.
      steady Still-get_settings ⨾ λ settings. steady (Still-lift _) ⨾ λ tx.
      Triple-record_tx env args.tracking_id _ system.public nonce tx ⨾ λ otx.
      steady (Still-announce env args.tracking_id) ⨾ λ _.
      Triple-insert_many_tx env _ (λ d r. (r.0, tt)) ⨾ λ _. Finishes-commit env

  pub gas_refill_work-Atomic : (args : GasRefillArgs) → Atomic (gas_refill_work env args)
  unfolding gas_refill_work
  gas_refill_work-Atomic args c0 = Triple-begin env ⨾ λ _. steady (Still-lift _) ⨾ λ account.
      steady (Still-call_next_time env account) ⨾ λ next. steady (Still-moment env) ⨾ λ t.
      Hoare-if _ (Hoare-pure tt (λ c w p. p.0.0)) (
        steady (Still-call_check env account) ⨾ λ allowed.
        Hoare-if allowed (Finishes-give_gas args c0) (Hoare-pure tt (λ c w p. p.0.0)))
