-- ===== src/Worker/Safety/Recovery.antt =====
-- The calls of the unlocker leave both databases as they are.
use eth_custodial.Prelude.{ℕ, zero, suc, ◌+◌, Option, none, some, List, [], ◌∷◌}
use eth_custodial.Jobs.{Address}
use eth_custodial.Store.Tables.{Otx}
use eth_custodial.World.{M}
use eth_custodial.World.Hoare.{Still, Still-if, Still-lift, Still-pure, Still-bind}
use eth_custodial.Runtime.{Env, Receipt}
use eth_custodial.Worker.Safety.Steps.{Still-tick}
use eth_custodial.Worker.Unlocker.Recovery.{
  Found, call_nonce, is_candidate, found_or, scan_txs, stop_or, scan_blocks, scan_anchor,
}

module _ (env : Env) where
  pub Still-call_nonce : (a : Address) → Still (call_nonce env a)
  unfolding call_nonce
  Still-call_nonce a = Still-bind Still-tick (λ t. Still-lift _)

  Still-found_or :
      (tx : env.Tx) (r : Option (Option Receipt)) (m : M (Option Found))
      → Still m
      → Still (found_or env tx r m)
  Still-found_or tx none m h = h
  Still-found_or tx (some none) m h = h
  Still-found_or tx (some (some r)) m h = Still-pure _

  Still-scan_txs : (otx : Otx) (txs : List env.Tx) → Still (scan_txs env otx txs)
  unfolding scan_txs
  Still-scan_txs otx [] = Still-pure none
  Still-scan_txs otx (tx ∷ txs) =
      Still-if (is_candidate env otx tx)
        (Still-bind Still-tick (λ t. Still-found_or tx _ _ (Still-scan_txs otx txs)))
        (Still-scan_txs otx txs)

  Still-stop_or : (f : Option Found) (m : M (Option Found)) → Still m → Still (stop_or env f m)
  Still-stop_or none m h = h
  Still-stop_or (some f) m h = Still-pure _

  Still-scan_blocks : (otx : Otx) (n from : ℕ) → Still (scan_blocks env otx n from)
  unfolding scan_blocks
  Still-scan_blocks otx zero from = Still-pure none
  Still-scan_blocks otx (suc n) from = Still-bind Still-tick λ t.
      Still-bind (Still-scan_txs otx _) λ f. Still-stop_or f _ (Still-scan_blocks otx n (from + 1))

  pub Still-scan_anchor : (otx : Otx) (b : ℕ) → Still (scan_anchor env otx b)
  unfolding scan_anchor
  Still-scan_anchor otx b = Still-scan_blocks otx _ _
