-- ===== src/Worker/Issue/Signers.antt =====
-- The workers of internal/worker/token_transfer.go, token_sweep.go and generic_sign.go against the
-- contract.
use eth_custodial.Prelude.Int.{ℤ}
use eth_custodial.Prelude.{ℕ, ◌≡◌, refl, String, false, some, none, List, [], ◌∷◌}
use eth_custodial.Jobs.{Job, TokenTransferArgs, TokenSweepArgs, GenericSignArgs}
use eth_custodial.Store.Types.{OtxType, token_transfer, token_sweep, generic_sign}
use eth_custodial.Store.Tables.{Db}
use eth_custodial.Store.Results.{Result, ok, err}
use eth_custodial.World.{World, M}
use eth_custodial.World.Hoare.{Ends, Hoare, Hoare-lift, Still-lift, ◌⨾◌, weaken}
use eth_custodial.Runtime.{Env, address, uint}
use eth_custodial.Chain.{transfer, sweep, string_to_big_int}
use eth_custodial.Worker.Issue.Calls.{Invokes, IsSend, invokes, sends, after_call}
use eth_custodial.Pg.Rules.{Still-load_private_key}
use eth_custodial.Pg.Safe.{steady}
use eth_custodial.Worker.Signing.{Recorded}
use eth_custodial.Worker.Issue.Jobs.{dispatch_of, refill_of}
use eth_custodial.Worker.Transfers.{token_transfer_work, token_sweep_work, generic_sign_work}
use eth_custodial.Worker.Safety.Steps.{Still-get_settings, Still-announce}
use eth_custodial.Worker.Issue.{OneIssued, Step-begin, Step-acquire_nonce, Step-record_call}
use eth_custodial.Worker.Issue.Queue.{Queued-insert_many_tx, Queued-commit}

-- A run of `m` from the committed database `c0` that completes keeps the contract.
abbrev Issues :
    String → String → OtxType → (ℕ → String → Type 0) → (Recorded → List Job) → M Unit → Db → Type 0
Issues pk tracking_id t call jobs m c0 =
    Hoare (λ c. c ≡ c0) (λ c w. (c ≡ c0) × Unit) m
      (λ _ c w. OneIssued pk tracking_id t call jobs c0 c)

abbrev pub transfer_jobs : String → String → Recorded → List Job
transfer_jobs tracking_id from otx =
    dispatch_of tracking_id otx (some 1) ∷ refill_of tracking_id from 2 ∷ []

abbrev pub sweep_jobs : String → Recorded → List Job
sweep_jobs tracking_id otx = dispatch_of tracking_id otx none ∷ []

module _ (env : Env) where
  -- The token is called for the transfer of the amount.
  abbrev pub TransferCall : TokenTransferArgs → ℕ → String → Type 0
  TransferCall args nonce raw_tx =
      (amount : ℤ) × (string_to_big_int env args.amount false ≡ ok amount)
      × Invokes env (env.hex_to_address args.token_address) transfer
          (address (env.hex_to_address args.to) ∷ uint amount ∷ []) (env.hex_to_address args.from)
          nonce raw_tx

  -- The token is called for the sweep.
  abbrev pub SweepCall : TokenSweepArgs → ℕ → String → Type 0
  SweepCall args =
      Invokes env (env.hex_to_address args.token_address) sweep
        (address (env.hex_to_address args.to) ∷ []) (env.hex_to_address args.from)

  -- The value and the input are sent.
  abbrev pub GenericCall : GenericSignArgs → ℕ → String → Type 0
  GenericCall args nonce raw_tx =
      (value : ℤ) × (string_to_big_int env args.value false ≡ ok value)
      × IsSend env (env.hex_to_address args.to) value (env.from_hex args.input) nonce raw_tx

module _ (env : Env) (c0 : Db) where
  token_transfer_work-Issues :
      (args : TokenTransferArgs)
      → Issues args.from args.tracking_id token_transfer
          (TransferCall env args)
          (transfer_jobs args.tracking_id args.from)
          (token_transfer_work env args)
          c0
  unfolding token_transfer_work
  token_transfer_work-Issues args = Step-begin env c0 ⨾ λ _.
      steady (Still-load_private_key env args.from) ⨾ λ keypair. steady (Still-lift _) ⨾ λ key.
      Step-acquire_nonce env c0 c0 args.from ⨾ λ nonce.
      Hoare-lift _ (λ c w p. p.0)
        λ amount v.
          Hoare-lift _ (λ c w p. p.0)
            λ input e. steady Still-get_settings ⨾ λ settings.
              Hoare-lift _ (λ c w p. p.0)
                λ tx s.
                  weaken (λ c w p. p)
                    (λ otx c w p. (
                      p.0,
                      after_call env (TransferCall env args) p.1 (λ text. (
                        amount,
                        v,
                        invokes env key settings transfer _ _ input nonce tx e s text,
                      )),
                    ))
                    (Step-record_call env c0 c0 args.tracking_id token_transfer args.from nonce tx)
                  ⨾ λ otx.
                      Queued-insert_many_tx env c0 (transfer_jobs args.tracking_id args.from) otx
                      ⨾ λ _.
                          steady (Still-announce env args.tracking_id) ⨾ λ _. Queued-commit env c0

  token_sweep_work-Issues :
      (args : TokenSweepArgs)
      → Issues args.from args.tracking_id token_sweep
          (SweepCall env args)
          (sweep_jobs args.tracking_id)
          (token_sweep_work env args)
          c0
  unfolding token_sweep_work
  token_sweep_work-Issues args = Step-begin env c0 ⨾ λ _.
      steady (Still-load_private_key env args.from) ⨾ λ keypair. steady (Still-lift _) ⨾ λ key.
      Step-acquire_nonce env c0 c0 args.from ⨾ λ nonce.
      Hoare-lift _ (λ c w p. p.0)
        λ input e. steady Still-get_settings ⨾ λ settings.
          Hoare-lift _ (λ c w p. p.0)
            λ tx s.
              weaken (λ c w p. p)
                (λ otx c w p. (
                  p.0,
                  after_call env (SweepCall env args) p.1
                      (λ text. invokes env key settings sweep _ _ input nonce tx e s text),
                ))
                (Step-record_call env c0 c0 args.tracking_id token_sweep args.from nonce tx)
              ⨾ λ otx. Queued-insert_many_tx env c0 (sweep_jobs args.tracking_id) otx ⨾ λ _.
                  steady (Still-announce env args.tracking_id) ⨾ λ _. Queued-commit env c0

  generic_sign_work-Issues :
      (args : GenericSignArgs)
      → Issues args.from args.tracking_id generic_sign
          (GenericCall env args)
          (transfer_jobs args.tracking_id args.from)
          (generic_sign_work env args)
          c0
  unfolding generic_sign_work
  generic_sign_work-Issues args = Step-begin env c0 ⨾ λ _.
      steady (Still-load_private_key env args.from) ⨾ λ keypair. steady (Still-lift _) ⨾ λ key.
      Step-acquire_nonce env c0 c0 args.from ⨾ λ nonce.
      Hoare-lift _ (λ c w p. p.0)
        λ value v. steady Still-get_settings ⨾ λ settings.
          Hoare-lift _ (λ c w p. p.0)
            λ tx s.
              weaken (λ c w p. p)
                (λ otx c w p. (
                  p.0,
                  after_call env (GenericCall env args) p.1
                      (λ text. (value, v, sends env key settings _ value _ nonce tx s text)),
                ))
                (Step-record_call env c0 c0 args.tracking_id generic_sign args.from nonce tx)
              ⨾ λ otx.
                  Queued-insert_many_tx env c0 (transfer_jobs args.tracking_id args.from) otx ⨾ λ _.
                  steady (Still-announce env args.tracking_id) ⨾ λ _. Queued-commit env c0

completed_run :
    {pk tracking_id : String} {t : OtxType} {call : ℕ → String → Type 0}
    {jobs : Recorded → List Job} (c0 : Db) (r : Result Unit) (w : World)
    → r ≡ ok tt
    → Ends (λ c. c ≡ c0) (λ _ c _. OneIssued pk tracking_id t call jobs c0 c) r w
    → OneIssued pk tracking_id t call jobs c0 w.committed
completed_run c0 (ok a) w q h = h
completed_run c0 (err e) w q h = cc

Issues-completed :
    {pk tracking_id : String} {t : OtxType} {call : ℕ → String → Type 0}
    {jobs : Recorded → List Job} {m : M Unit} (w : World)
    → Issues pk tracking_id t call jobs m w.committed
    → (m w).0 ≡ ok tt
    → OneIssued pk tracking_id t call jobs w.committed (m w).1.committed
Issues-completed {m} w s h = completed_run w.committed (m w).0 (m w).1 h (s.at w (refl, tt))

-- A token transfer that completes gave the sender its next nonce and recorded one transaction
-- under it, pending, with the text of a signed call of the token that transfers the amount to the
-- receiver, and queued its dispatch and then a gas refill of the sender; nothing else of the
-- database changed.
pub token_transfer_work-OneIssued :
    (env : Env) (args : TokenTransferArgs) (w : World)
    → (token_transfer_work env args w).0 ≡ ok tt
    → OneIssued args.from args.tracking_id token_transfer
        (TransferCall env args)
        (transfer_jobs args.tracking_id args.from)
        w.committed
        (token_transfer_work env args w).1.committed
token_transfer_work-OneIssued env args w =
    Issues-completed w (token_transfer_work-Issues env w.committed args)

-- A token sweep that completes gave the sender its next nonce and recorded one transaction under
-- it, pending, with the text of a signed call of the token that sweeps it to the receiver, and
-- queued its dispatch and nothing else; nothing else of the database changed.
pub token_sweep_work-OneIssued :
    (env : Env) (args : TokenSweepArgs) (w : World)
    → (token_sweep_work env args w).0 ≡ ok tt
    → OneIssued args.from args.tracking_id token_sweep
        (SweepCall env args)
        (sweep_jobs args.tracking_id)
        w.committed
        (token_sweep_work env args w).1.committed
token_sweep_work-OneIssued env args w =
    Issues-completed w (token_sweep_work-Issues env w.committed args)

-- A signing request that completes gave the signer its next nonce and recorded one transaction
-- under it, pending, with the text of a signed transaction that sends the value and the input of
-- the request, and queued its dispatch and then a gas refill of the signer; nothing else of the
-- database changed.
pub generic_sign_work-OneIssued :
    (env : Env) (args : GenericSignArgs) (w : World)
    → (generic_sign_work env args w).0 ≡ ok tt
    → OneIssued args.from args.tracking_id generic_sign
        (GenericCall env args)
        (transfer_jobs args.tracking_id args.from)
        w.committed
        (generic_sign_work env args w).1.committed
generic_sign_work-OneIssued env args w =
    Issues-completed w (generic_sign_work-Issues env w.committed args)
