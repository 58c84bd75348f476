-- ===== src/Api/Safety/Sending.antt =====
-- `eth_sendTransaction` keeps the invariant of the database.
use eth_custodial.Prelude.{String, Option, none, some, List, [], ◌∷◌}
use eth_custodial.Jobs.{DispatchArgs}
use eth_custodial.Store.Tables.{Db}
use eth_custodial.Store.Sound.{IsSound}
use eth_custodial.World.Hoare.{Hoare, ◌⨾◌, Hoare-pure, Hoare-raise, Still-lift}
use eth_custodial.Runtime.{Env}
use eth_custodial.Pg.Rules.{Still-moment, Still-load_private_key}
use eth_custodial.Pg.Safe.{
  Kept, Both, Issued, steady, Triple-begin, Finishes-commit, Triple-acquire_nonce,
  Triple-insert_many_tx,
}
use eth_custodial.Worker.Safety.Steps.{Still-get_settings, Triple-record_tx}
use eth_custodial.Api.Pools.{}
use eth_custodial.Api.Contracts.{}
use eth_custodial.Api.Accounts.{}
use eth_custodial.Api.Otx.{}
use eth_custodial.Api.Rpc.{
  SendTransactionParams, params_for, finish_send, send_transaction, send_first,
  eth_send_transaction,
}
use eth_custodial.Api.Auth.{Session}
use eth_custodial.Api.Safety.Rules.{Hoare-on_postgres}
use eth_custodial.Api.Safety.Asks.{}
use eth_custodial.Api.{}
use eth_custodial.Api.Safety.Settling.{Settles, Settled}

module _ (env : Env) where
  pub finish_send-Settled :
      {c0 : Db} {txs : List DispatchArgs} (hash : String)
      → Hoare
          (Kept c0)
          (Both (Kept c0) (Issued txs))
          (finish_send env hash)
          (λ r c w. Settles c0 r c)
  unfolding finish_send
  finish_send-Settled hash =
      Hoare-on_postgres {Q = λ _ c w. IsSound c} (λ s d x c v p. p) (Finishes-commit env)
        (λ _. Hoare-pure _ (λ c w p. p))

  pub send_transaction-Settled : (p : SendTransactionParams) → Settled (send_transaction env p)
  unfolding send_transaction
  send_transaction-Settled p c0 = Triple-begin env ⨾ λ _.
      steady (Still-load_private_key env p.from) ⨾ λ keypair. steady (Still-lift _) ⨾ λ key.
      Triple-acquire_nonce env p.from ⨾ λ nonce. steady (Still-lift _) ⨾ λ value.
      steady Still-get_settings ⨾ λ settings. steady (Still-lift _) ⨾ λ tx.
      steady (Still-moment env) ⨾ λ t.
      Triple-record_tx env (env.new_uuid t) _ p.from nonce tx ⨾ λ otx.
      Hoare-on_postgres (λ s d x c v p. p) (Triple-insert_many_tx env _ (λ d r. (r.0, (tt, tt))))
        (λ _. finish_send-Settled _)

  pub send_first-Settled : (ps : List SendTransactionParams) → Settled (send_first env ps)
  send_first-Settled [] c0 = Hoare-raise _ (λ c w p. p.0)
  send_first-Settled (p ∷ ps) c0 = send_transaction-Settled p c0

  pub eth_send_transaction-Settled :
      (s : Session) (ps : Option (List SendTransactionParams))
      → Settled (eth_send_transaction env s ps)
  unfolding eth_send_transaction
  eth_send_transaction-Settled s none c0 = Hoare-raise _ (λ c w p. p.0)
  eth_send_transaction-Settled s (some ps) c0 = send_first-Settled (params_for s ps) c0
