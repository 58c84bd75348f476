-- ===== src/Worker/Safety/Unlocker.antt =====
-- Triples of the unlocker for any property of the committed database that its three statements
-- keep.
use eth_custodial.Prelude.{ℕ, ◌≡◌, String, Bool, Option, none, some, List, [], ◌∷◌}
use eth_custodial.Jobs.{Address, Bytes}
use eth_custodial.Store.Types.{DispatchStatus, in_network}
use eth_custodial.Store.Tables.{Db, Otx}
use eth_custodial.Store.Results.{Result, ok, err, ok_injective}
use eth_custodial.Store.Queries
use eth_custodial.Store.Unlocks.{set_otx_tx, set_otx_hash}
use eth_custodial.World.Hoare.{Still-lift, Still-attempt, Hoare-raise, Hoare-if, ◌⨾◌}
use eth_custodial.Runtime.{Env, Receipt, DynamicFeeTx}
use eth_custodial.Pg
use eth_custodial.Pg.Rules.{
  Still-external, Still-query, Still-moment, Still-load_private_key, Hoare-write, Hoare-begin,
  Hoare-commit,
}
use eth_custodial.Pg.Safe.{Triple, steady}
use eth_custodial.Worker.Safety.Steps.{Still-tick, Still-get_settings}
use eth_custodial.Worker.Safety.Dispatch.{Still-call_send_raw_tx}
use eth_custodial.Worker.Safety.Keeps.{
  Keeps, forget, Keeps-attempt, Keeps-pure, Keeps-raise, Keeps-go_on,
}
use eth_custodial.Worker.Unlocker.Refusal.{
  Kind, nonce_low, gas_price, replacement_underpriced, no_gas, unknown, classify,
}
use eth_custodial.Worker.Unlocker.Recovery.{
  Found, receipt_status, set_status, save_found, from_anchor, with_anchor, find_anchor,
  recover_orphaned_nonce, with_receipt, check_receipt,
}
use eth_custodial.Worker.Unlocker.Resign.{
  save_resigned, after_resign, submit, resign_call, resign_and_resubmit,
}
use eth_custodial.Worker.Unlocker.{
  on_refusal, after_resubmit, process_otx, process_sequence, process_account, process_accounts,
  unlocker_work,
}
use eth_custodial.Worker.Safety.Recovery.{Still-call_nonce, Still-scan_anchor}

-- `P` holds after each statement that the unlocker sends.
pub record IsStable (P : Db → Type 0) : Type 0 where
  pub status :
      (now i : ℕ) (s : DispatchStatus) (d d' : Db)
      → P d
      → Queries.update_dispatch_status now i s d ≡ ok d'
      → P d'
  pub tx : (i : ℕ) (raw hash : String) (d : Db) → P d → P (set_otx_tx i raw hash d)
  pub hash : (i : ℕ) (hash : String) (d : Db) → P d → P (set_otx_hash i hash d)

module _ {P : Db → Type 0} (env : Env) (stable : IsStable P) where
  pub Triple-begin : Triple P (λ _. Unit) (Pg.begin env) (λ _. P)
  Triple-begin = Hoare-begin env (λ c w p. p.0) (λ c w p. (p.0, p.0))

  pub Triple-commit : Triple P P (Pg.commit env) (λ _ _. Unit)
  Triple-commit = Hoare-commit env (λ c w p. p.0) (λ c w p. (p.1, tt))

  pub Triple-status :
      (i : ℕ) (s : DispatchStatus) → Triple P P (Pg.update_dispatch_tx_status env i s) (λ _. P)
  unfolding Pg.update_dispatch_tx_status
  Triple-status i s = steady (Still-external env) ⨾ λ _.
      Hoare-write (λ w d. Queries.update_dispatch_status w.began_at i s d) (λ c w p. p.0)
        λ w c d d' p h. (p.0, stable.status w.began_at i s d d' p.1 h)

  pub Triple-tx : (i : ℕ) (raw hash : String) → Triple P P (Pg.set_otx_tx env i raw hash) (λ _. P)
  unfolding Pg.set_otx_tx
  Triple-tx i raw hash = steady (Still-external env) ⨾ λ _.
      Hoare-write (λ w d. ok (set_otx_tx i raw hash d)) (λ c w p. p.0)
        λ w c d d' p h. (p.0, rw (← ok_injective h) (stable.tx i raw hash d p.1))

  Triple-hash : (i : ℕ) (hash : String) → Triple P P (Pg.set_otx_hash env i hash) (λ _. P)
  unfolding Pg.set_otx_hash
  Triple-hash i hash = steady (Still-external env) ⨾ λ _.
      Hoare-write (λ w d. ok (set_otx_hash i hash d)) (λ c w p. p.0)
        λ w c d d' p h. (p.0, rw (← ok_injective h) (stable.hash i hash d p.1))

  Keeps-set_status : (i : ℕ) (s : DispatchStatus) → Keeps P (set_status env i s)
  unfolding set_status
  Keeps-set_status i s = Triple-begin ⨾ λ _. Triple-status i s ⨾ λ _. Triple-commit

  Keeps-save_found : (otx : Otx) (f : Option Found) → Keeps P (save_found env otx f)
  unfolding save_found
  Keeps-save_found otx none = Keeps-pure tt
  Keeps-save_found otx (some f) = Triple-begin ⨾ λ _.
      Triple-hash otx.id f.hash ⨾ λ _. Triple-status otx.id f.status ⨾ λ _. Triple-commit

  Keeps-from_anchor : (otx : Otx) (b : Option ℕ) → Keeps P (from_anchor env otx b)
  unfolding from_anchor
  Keeps-from_anchor otx none = Keeps-raise _
  Keeps-from_anchor otx (some b) =
      steady (Still-scan_anchor env otx b) ⨾ λ f. Keeps-save_found otx f

  Keeps-with_anchor : (otx : Otx) (r : Option (Option Receipt)) → Keeps P (with_anchor env otx r)
  Keeps-with_anchor otx none = Keeps-pure tt
  Keeps-with_anchor otx (some none) = Keeps-pure tt
  Keeps-with_anchor otx (some (some r)) = Keeps-from_anchor otx r.block_number

  Keeps-find_anchor : (otx : Otx) (r : Result String) → Keeps P (find_anchor env otx r)
  unfolding find_anchor
  Keeps-find_anchor otx (err e) = Keeps-pure tt
  Keeps-find_anchor otx (ok hash) = steady Still-tick ⨾ λ t. Keeps-with_anchor otx _

  Keeps-recover : (otx : Otx) → Keeps P (recover_orphaned_nonce env otx)
  unfolding recover_orphaned_nonce
  Keeps-recover otx = steady (Still-attempt (Still-query env _)) ⨾ λ r. Keeps-find_anchor otx r

  Keeps-with_receipt : (otx : Otx) (r : Option Receipt) → Keeps P (with_receipt env otx r)
  unfolding with_receipt
  Keeps-with_receipt otx none =
      steady (Still-call_nonce env _) ⨾ λ n. Hoare-if _ (Keeps-recover otx) (Keeps-pure tt)
  Keeps-with_receipt otx (some r) = Keeps-set_status otx.id (receipt_status r)

  Keeps-check_receipt : (otx : Otx) → Keeps P (check_receipt env otx)
  unfolding check_receipt
  Keeps-check_receipt otx =
      steady Still-tick ⨾ λ t. steady (Still-lift _) ⨾ λ r. Keeps-with_receipt otx r

  Keeps-save_resigned :
      (otx : Otx) (tx : env.Tx) (raw : Bytes)
      → Triple P P (save_resigned env otx tx raw) (λ _ _. Unit)
  unfolding save_resigned
  Keeps-save_resigned otx tx raw =
      Triple-tx otx.id _ _ ⨾ λ _. Triple-status otx.id in_network ⨾ λ _. Triple-commit

  Keeps-after_resign :
      (otx : Otx) (tx : env.Tx) (raw : Bytes) (e : Option String)
      → Triple P P (after_resign env otx tx raw e) (λ _ _. Unit)
  unfolding after_resign
  Keeps-after_resign otx tx raw (some msg) = Hoare-raise _ (λ c w p. p.0)
  Keeps-after_resign otx tx raw none = steady (Still-attempt (Still-call_nonce env _)) ⨾ λ n.
      Hoare-if _ (forget (Keeps-check_receipt otx)) (Keeps-save_resigned otx tx raw)

  Keeps-submit : (otx : Otx) (f : DynamicFeeTx) → Keeps P (submit env otx f)
  unfolding submit
  Keeps-submit otx f = Triple-begin ⨾ λ _.
      steady (Still-load_private_key env otx.signer_account) ⨾ λ keypair.
      steady (Still-lift _) ⨾ λ key. steady (Still-lift _) ⨾ λ tx. steady (Still-lift _) ⨾ λ raw.
      steady (Still-call_send_raw_tx env raw) ⨾ λ answer. Keeps-after_resign otx tx raw _

  Keeps-resign_call :
      (otx : Otx) (f : DynamicFeeTx) (b : Bool) (to : Option Address)
      → Keeps P (resign_call env otx f b to)
  unfolding resign_call
  Keeps-resign_call otx f b none = Keeps-pure tt
  Keeps-resign_call otx f b (some to) =
      Hoare-if b (steady Still-get_settings ⨾ λ settings. Keeps-submit otx _) (Keeps-raise _)

  Keeps-resign : (otx : Otx) → Keeps P (resign_and_resubmit env otx)
  unfolding resign_and_resubmit
  Keeps-resign otx = steady (Still-lift _) ⨾ λ tx. Keeps-resign_call otx _ _ _

  Keeps-on_refusal : (otx : Otx) (msg : String) (k : Kind) → Keeps P (on_refusal env otx msg k)
  Keeps-on_refusal otx msg nonce_low = Keeps-check_receipt otx
  Keeps-on_refusal otx msg gas_price = Keeps-resign otx
  Keeps-on_refusal otx msg replacement_underpriced = Keeps-resign otx
  Keeps-on_refusal otx msg no_gas = Keeps-pure tt
  Keeps-on_refusal otx msg unknown = Keeps-raise _

  Keeps-after_resubmit : (otx : Otx) (e : Option String) → Keeps P (after_resubmit env otx e)
  unfolding after_resubmit
  Keeps-after_resubmit otx none = Keeps-set_status otx.id in_network
  Keeps-after_resubmit otx (some msg) = Keeps-on_refusal otx msg (classify msg)

  Keeps-process_otx : (otx : Otx) → Keeps P (process_otx env otx)
  unfolding process_otx
  Keeps-process_otx otx = steady (Still-lift _) ⨾ λ raw.
      steady (Still-call_send_raw_tx env raw) ⨾ λ answer. Keeps-after_resubmit otx _

  Keeps-process_sequence : (otxs : List Otx) → Keeps P (process_sequence env otxs)
  unfolding process_sequence
  Keeps-process_sequence [] = Keeps-pure tt
  Keeps-process_sequence (otx ∷ rest) = Keeps-attempt (Keeps-process_otx otx) ⨾ λ r.
      Keeps-go_on r _ _ (Keeps-process_sequence rest) (Keeps-pure tt)

  Keeps-process_account : (account : String) → Keeps P (process_account env account)
  unfolding process_account
  Keeps-process_account account = steady (Still-call_nonce env _) ⨾ λ n.
      steady (Still-query env _) ⨾ λ otxs. Keeps-process_sequence otxs

  Keeps-process_accounts : (accounts : List String) → Keeps P (process_accounts env accounts)
  unfolding process_accounts
  Keeps-process_accounts [] = Keeps-pure tt
  Keeps-process_accounts (account ∷ rest) = Keeps-attempt (Keeps-process_account account) ⨾ λ r.
      Keeps-go_on r _ _ (Keeps-process_accounts rest) (Keeps-process_accounts rest)

  pub Keeps-unlocker_work : Keeps P (unlocker_work env)
  unfolding unlocker_work
  Keeps-unlocker_work = steady (Still-moment env) ⨾ λ t.
      steady (Still-query env _) ⨾ λ stuck. Keeps-process_accounts _
