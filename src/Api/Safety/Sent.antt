-- ===== src/Api/Safety/Sent.antt =====
-- What `eth_sendTransaction` signs, and for whom.
use eth_custodial.Prelude.Int.{ℤ}
use eth_custodial.Prelude.{ℕ, if◌then◌else◌, ◌≡◌, refl, String, Bool, true, false, some, List, ◌∷◌}
use eth_custodial.Store.Types.{generic_sign}
use eth_custodial.Store.Tables.{Db}
use eth_custodial.Store.Results.{Result, ok, err, or_error-ok}
use eth_custodial.World.{World}
use eth_custodial.World.Hoare.{Hoare, Ends, Hoare-lift, Still-lift, Hoare-pure, ◌⨾◌, weaken}
use eth_custodial.Runtime.{Env}
use eth_custodial.Pg.Rules.{Still-load_private_key, Still-moment}
use eth_custodial.Pg.Safe.{Both, steady}
use eth_custodial.Worker.Safety.Steps.{Still-get_settings}
use eth_custodial.Worker.Issue.{OneIssued, Step-begin, Step-acquire_nonce, Step-record_call}
use eth_custodial.Worker.Issue.Calls.{IsSend, sends, after_call}
use eth_custodial.Worker.Issue.Queue.{Queued, Queued-insert_many_tx, Queued-commit}
use eth_custodial.Worker.Issue.Signers.{transfer_jobs}
use eth_custodial.Api.Response.{Reply, ok_response, err_response}
use eth_custodial.Api.Auth.{Session}
use eth_custodial.Api.Rpc.{
  SendTransactionParams, force_from, params_for, finish_send, send_transaction, send_first,
  eth_send_transaction,
}
use eth_custodial.Api.Safety.Rules.{Is, Hoare-on_postgres}
use eth_custodial.Api.{respond}

-- Whose key a session signs with.
abbrev pub signer_of : Session → SendTransactionParams → String
signer_of s p = if s.service then p.from else s.public_key

-- One transaction of the account, under the tracking id of its jobs.
abbrev pub IssuedBy : (ℕ → String → Type 0) → String → Db → Reply → Db → Type 0
IssuedBy call pk c0 (ok_response d p) c =
    (id : String) × OneIssued pk id generic_sign call (transfer_jobs id pk) c0 c
IssuedBy call pk c0 (err_response s d x) c = Is c0 c

-- The value and the data are sent.
abbrev pub SentCall : Env → SendTransactionParams → ℕ → String → Type 0
SentCall env p nonce raw_tx =
    (value : ℤ) × (env.decode_big p.value ≡ some value)
    × IsSend env (env.hex_to_address p.to) value (env.from_hex p.data_) nonce raw_tx

module _ (env : Env) (c0 : Db) where
  Sends-finish :
      (call : ℕ → String → Type 0) (pk id hash : String)
      → Hoare
          (Is c0)
          (λ c w. (c ≡ c0) × Queued c0 pk id generic_sign call (transfer_jobs id pk) w)
          (finish_send env hash)
          (λ r c w. IssuedBy call pk c0 r c)
  unfolding finish_send
  Sends-finish call pk id hash =
      Hoare-on_postgres (λ s d x c v p. p) (Queued-commit env c0)
        λ _. Hoare-pure _ (λ c w p. (id, p))

  Sends :
      (p : SendTransactionParams)
      → Hoare
          (Is c0)
          (Both (Is c0) (λ _. Unit))
          (send_transaction env p)
          (λ r c w. IssuedBy (SentCall env p) p.from c0 r c)
  unfolding send_transaction
  Sends p = Step-begin env c0 ⨾ λ _. steady (Still-load_private_key env p.from) ⨾ λ keypair.
      steady (Still-lift _) ⨾ λ key. Step-acquire_nonce env c0 c0 p.from ⨾ λ nonce.
      Hoare-lift _ (λ c w p. p.0)
        λ value v. steady Still-get_settings ⨾ λ settings.
          Hoare-lift _ (λ c w p. p.0)
            λ tx s. steady (Still-moment env) ⨾ λ t.
              weaken (λ c w x. x)
                (λ otx c w x. (
                  x.0,
                  after_call env (SentCall env p) x.1 (λ text. (
                    value,
                    or_error-ok _ _ _ v,
                    sends env key settings _ value _ nonce tx s text,
                  )),
                ))
                (Step-record_call env c0 c0 (env.new_uuid t) generic_sign p.from nonce tx)
              ⨾ λ otx.
                  Hoare-on_postgres (λ s d x c v p. p)
                    (Queued-insert_many_tx env c0 (transfer_jobs (env.new_uuid t) p.from) otx)
                    (λ _. Sends-finish (SentCall env p) p.from (env.new_uuid t) _)

  Sends-first :
      (service : Bool) (s : Session) (p : SendTransactionParams) (ps : List SendTransactionParams)
      → s.service ≡ service
      → Hoare
          (Is c0)
          (Both (Is c0) (λ _. Unit))
          (send_first env (if service then p ∷ ps else force_from s.public_key (p ∷ ps)))
          (λ r c w. IssuedBy (SentCall env p) (if service then p.from else s.public_key) c0 r c)
  unfolding force_from
  Sends-first true s p ps h = Sends p
  Sends-first false s p ps h = Sends (record p { from = s.public_key })

respond-IssuedBy :
    (call : ℕ → String → Type 0) (pk : String) (c0 : Db) (r : Result Reply) (w : World)
    → Ends (Is c0) (λ r c w. IssuedBy call pk c0 r c) r w
    → IssuedBy call pk c0 (respond r) w.committed
respond-IssuedBy call pk c0 (ok r) w h = h
respond-IssuedBy call pk c0 (err e) w h = h

-- A call of `eth_sendTransaction` that is answered with OK signed for the account that the first
-- set of parameters names if the token is a service's, and for the token's own account, whatever
-- the parameters say, if it is not: the account was given its next nonce, one transaction of it is
-- recorded under that nonce, pending, with the text of a signed transaction that sends the value
-- and the data of that set, and its dispatch and a gas refill are queued, and nothing else of the
-- database changed. Answered with an error, it changed nothing of the database.
pub eth_send_transaction-IssuedBy :
    (env : Env) (s : Session) (p : SendTransactionParams) (ps : List SendTransactionParams)
    (w : World)
    → IssuedBy
        (SentCall env p)
        (signer_of s p)
        w.committed
        (respond (eth_send_transaction env s (some (p ∷ ps)) w).0)
        (eth_send_transaction env s (some (p ∷ ps)) w).1.committed
unfolding eth_send_transaction
eth_send_transaction-IssuedBy env s p ps w =
    let m = send_first env (params_for s (p ∷ ps)) in
    respond-IssuedBy (SentCall env p) (signer_of s p) w.committed (m w).0 (m w).1
      ((Sends-first env w.committed s.service s p ps refl).at w (refl, tt))
