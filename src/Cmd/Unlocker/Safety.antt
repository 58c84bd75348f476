-- ===== src/Cmd/Unlocker/Safety.antt =====
-- What a run of cmd/unlocker leaves of the database, whichever calls fail on the way.
use eth_custodial.Prelude.{ℕ, String, Bool, true, false, Option, none, some, List, [], ◌∷◌}
use eth_custodial.Jobs.{Bytes}
use eth_custodial.Store.Types.{DispatchStatus, in_network}
use eth_custodial.Store.Tables.{Db, Otx}
use eth_custodial.Store.Results.{Error, Result, ok, err, panicked}
use eth_custodial.World.{World}
use eth_custodial.World.Hoare.{Still-bind, Still-lift, Still-pure, Hoare-if, ◌⨾◌}
use eth_custodial.Runtime.{Env, Receipt}
use eth_custodial.Pg.Rules.{Still-query, Still-moment, Still-load_private_key}
use eth_custodial.Pg.Safe.{steady}
use eth_custodial.Store.Sound.Rewrites.{IsSameBook-refl}
use eth_custodial.Store.Sound.Resent.{IsSameBook}
use eth_custodial.Worker.Safety.Keeps.{Keeps, Keeps-attempt, Keeps-pure, Keeps-raise}
use eth_custodial.Worker.Safety.Unlocker.{
  IsStable, Triple-begin, Triple-commit, Triple-status, Triple-tx,
}
use eth_custodial.Worker.Safety.Unlocks.{IsStable-IsSameBook, Ends-IsSameBook}
use eth_custodial.Worker.Unlocker.Refusal.{
  Kind, nonce_low, gas_price, replacement_underpriced, no_gas, unknown, classify,
}
use eth_custodial.Cmd.Unlocker.Nodes.{Node}
use eth_custodial.Cmd.Unlocker.Resign.{
  update_dispatch_status, update_otx_and_dispatch, update_by, check_receipt_and_update, resign_tx,
  resign_and_submit,
}
use eth_custodial.Cmd.Unlocker.{
  Tally, Outcome, logged, store_resigned, settle, resign, on_kind, on_answer, resubmit, process_otx,
  process_otxs, with_otxs, with_nonce, process_account, process_accounts, run,
}
use eth_custodial.Cmd.Unlocker.Calls.{
  Still-first_answer, Still-get_gas_price, Still-send_from, Still-submitted,
}

module _ {P : Db → Type 0} (env : Env) (stable : IsStable P) where
  Keeps-update_dispatch_status :
      (i : ℕ) (s : DispatchStatus) → Keeps P (update_dispatch_status env i s)
  unfolding update_dispatch_status
  Keeps-update_dispatch_status i s =
      Triple-begin env stable ⨾ λ _. Triple-status env stable i s ⨾ λ _. Triple-commit env stable

  Keeps-update_otx_and_dispatch :
      (i : ℕ) (raw hash : String) → Keeps P (update_otx_and_dispatch env i raw hash)
  unfolding update_otx_and_dispatch
  Keeps-update_otx_and_dispatch i raw hash = Triple-begin env stable ⨾ λ _.
      Triple-tx env stable i raw hash ⨾ λ _.
      Triple-status env stable i in_network ⨾ λ _. Triple-commit env stable

  Keeps-update_by : (i : ℕ) (r : Option Receipt) → Keeps P (update_by env i r)
  Keeps-update_by i none = Keeps-raise _
  Keeps-update_by i (some r) = Keeps-update_dispatch_status i _

  Keeps-logged : {A : Type 0} (r : Result A) (good bad : Outcome) → Keeps P (logged r good bad)
  Keeps-logged (ok a) good bad = Keeps-pure _
  Keeps-logged (err panicked) good bad = Keeps-raise _
  Keeps-logged (err e) good bad = Keeps-pure _

  module _ (nodes : List Node) where
    Keeps-check_receipt : (otx : Otx) → Keeps P (check_receipt_and_update env nodes otx)
    unfolding check_receipt_and_update
    Keeps-check_receipt otx = steady (Still-first_answer _ nodes) ⨾ λ r. Keeps-update_by otx.id r

    Keeps-resign_and_submit :
        (otx : Otx) (account : String) → Keeps P (resign_and_submit env nodes otx account)
    unfolding resign_and_submit resign_tx
    Keeps-resign_and_submit otx account = steady (Still-lift _) ⨾ λ tx.
        steady (Still-get_gas_price nodes) ⨾ λ fees. Triple-begin env stable ⨾ λ _.
        steady (Still-load_private_key env account) ⨾ λ keypair. steady (Still-lift _) ⨾ λ key.
        Triple-commit env stable ⨾ λ _.
        steady (Still-bind (Still-lift _) λ tx. Still-bind (Still-lift _) λ raw. Still-pure _)
        ⨾ λ new. steady (Still-lift _) ⨾ λ raw.
            steady (Still-send_from nodes raw _) ⨾ λ answer. steady (Still-submitted env new answer)

    module _ (text : Error → String) (dry : Bool) where
      Keeps-store_resigned :
          (otx : Otx) (r : Result (String × String))
          → Keeps P (store_resigned env text nodes dry otx r)
      Keeps-store_resigned otx (ok new) =
          Keeps-attempt (Keeps-update_otx_and_dispatch otx.id _ _) ⨾ λ r. Keeps-logged r _ _
      Keeps-store_resigned otx (err panicked) = Keeps-raise _
      Keeps-store_resigned otx (err e) = Keeps-pure _

      Keeps-settle : (otx : Otx) → Keeps P (settle env text nodes dry otx)
      unfolding settle
      Keeps-settle otx = Keeps-attempt (Keeps-check_receipt otx) ⨾ λ r. Keeps-logged r _ _

      Keeps-resign :
          (otx : Otx) (account : String) → Keeps P (resign env text nodes dry otx account)
      unfolding resign
      Keeps-resign otx account =
          Keeps-attempt (Keeps-resign_and_submit otx account) ⨾ Keeps-store_resigned otx

      Keeps-on_kind :
          (otx : Otx) (account : String) (k : Kind)
          → Keeps P (on_kind env text nodes dry otx account k)
      Keeps-on_kind otx account nonce_low = Keeps-settle otx
      Keeps-on_kind otx account gas_price = Keeps-resign otx account
      Keeps-on_kind otx account replacement_underpriced = Keeps-resign otx account
      Keeps-on_kind otx account no_gas = Keeps-pure _
      Keeps-on_kind otx account unknown = Keeps-pure _

      Keeps-on_answer :
          (otx : Otx) (account : String) (r : Option String)
          → Keeps P (on_answer env text nodes dry otx account r)
      unfolding on_answer
      Keeps-on_answer otx account none =
          Keeps-attempt (Keeps-update_dispatch_status otx.id in_network) ⨾ λ r. Keeps-logged r _ _
      Keeps-on_answer otx account (some msg) = Keeps-on_kind otx account (classify msg)

      Keeps-resubmit :
          (otx : Otx) (account : String) (r : Option Bytes)
          → Keeps P (resubmit env text nodes dry otx account r)
      Keeps-resubmit otx account none = Keeps-pure _
      Keeps-resubmit otx account (some raw) =
          steady (Still-send_from nodes raw _) ⨾ Keeps-on_answer otx account

      Keeps-process_otx :
          (account : String) (n : ℕ) (otx : Otx)
          → Keeps P (process_otx env text nodes dry account n otx)
      unfolding process_otx
      Keeps-process_otx account n otx =
          Hoare-if _ (Keeps-settle otx) (Hoare-if dry (Keeps-pure _) (Keeps-resubmit otx account _))

      Keeps-process_otxs :
          (account : String) (n : ℕ) (os : List Otx) (skips : Bool) (t : Tally)
          → Keeps P (process_otxs env text nodes dry account n os skips t)
      unfolding process_otxs
      Keeps-process_otxs account n [] skips t = Keeps-pure t
      Keeps-process_otxs account n (o ∷ os) true t = Keeps-process_otxs account n os true _
      Keeps-process_otxs account n (o ∷ os) false t =
          Keeps-process_otx account n o ⨾ λ r. Keeps-process_otxs account n os _ _

      Keeps-with_otxs :
          (account : String) (n : ℕ) (t : Tally) (r : Result (List Otx))
          → Keeps P (with_otxs env text nodes dry account n t r)
      Keeps-with_otxs account n t (ok os) = Keeps-process_otxs account n os false t
      Keeps-with_otxs account n t (err panicked) = Keeps-raise _
      Keeps-with_otxs account n t (err e) = Keeps-pure _

      Keeps-with_nonce :
          (account : String) (t : Tally) (r : Result ℕ)
          → Keeps P (with_nonce env text nodes dry account t r)
      unfolding with_nonce
      Keeps-with_nonce account t (ok n) =
          Keeps-attempt (steady (Still-query env _)) ⨾ Keeps-with_otxs account n t
      Keeps-with_nonce account t (err panicked) = Keeps-raise _
      Keeps-with_nonce account t (err e) = Keeps-pure _

      Keeps-process_account :
          (account : String) (t : Tally) → Keeps P (process_account env text nodes dry account t)
      unfolding process_account
      Keeps-process_account account t =
          Keeps-attempt (steady (Still-first_answer _ nodes)) ⨾ Keeps-with_nonce account t

      Keeps-process_accounts :
          (accounts : List String) (t : Tally)
          → Keeps P (process_accounts env text nodes dry accounts t)
      unfolding process_accounts
      Keeps-process_accounts [] t = Keeps-pure t
      Keeps-process_accounts (a ∷ as_) t = Keeps-process_account a t ⨾ Keeps-process_accounts as_

      Keeps-run : Keeps P (run env text nodes dry)
      unfolding run
      Keeps-run = steady (Still-moment env) ⨾ λ t.
          steady (Still-query env _) ⨾ λ stuck. Keeps-process_accounts _ _

-- However a run of the command ends, and whatever the nodes answer, the keys, the master key, the
-- next nonces and the queue are as before, and so are the id, the tracking id, the type, the signer
-- and the nonce of every transaction: only signed texts, hashes and statuses may be new.
pub run-IsSameBook :
    (env : Env) (text : Error → String) (nodes : List Node) (dry : Bool) (w : World)
    → IsSameBook w.committed (run env text nodes dry w).1.committed
run-IsSameBook env text nodes dry w =
    let k = Keeps-run env (IsStable-IsSameBook w.committed) nodes text dry in
    Ends-IsSameBook w.committed (run env text nodes dry w).0 (run env text nodes dry w).1
      (k.at w (IsSameBook-refl w.committed, tt))
