-- ===== src/Worker/Unlocker/Scan/Range.antt =====
-- Which blocks the scan of `recoverOrphanedNonce` reads.
use eth_custodial.Prelude.{
  ℕ, zero, suc, ◌+◌, ◌≤◌, ◌<◌, ◌≡◌, refl, ap, ◌⊎◌, inl, inr, true, Option, none, some, List, [],
  ◌∷◌, All, arith, Bool-cases, if◌then◌else◌, ◌==◌,
}
use eth_custodial.Store.Tables.{Otx}
use eth_custodial.Store.Results.{Result, ok, err}
use eth_custodial.World.{World, M, pure, continue, ◌>>=◌}
use eth_custodial.Runtime.{Env, Receipt}
use eth_custodial.Chain.{tick}
use eth_custodial.Worker.Unlocker.Recovery.{
  Found, is_candidate, found_or, scan_txs, txs_of, stop_or, scan_blocks, scan_anchor,
}
use eth_custodial.Worker.Unlocker.Scan.{IsOwn}

-- The same chain with other blocks.
abbrev pub with_blocks : (env : Env) → (ℕ → ℕ → Option (Option (List env.Tx))) → Env
with_blocks env f = record env { block_txs = f }

-- The last six blocks up to an anchor's, or that one alone where its number is at most 5.
abbrev pub IsNear : ℕ → ℕ → Type 0
IsNear b k = (k ≤ b) × (b ≤ k + 5) × ((b ≤ 5) → k ≡ b)

module _ (env : Env) (otx : Otx) where
  -- No receipt of the transaction could be had.
  abbrev pub IsUnmined : env.Tx → Type 0
  IsUnmined tx =
      (t : ℕ) × ((env.tx_receipt t (env.tx_hash tx) ≡ none)
        ⊎ (env.tx_receipt t (env.tx_hash tx) ≡ some none))

  -- Some answer for the block has been gone through, and no transaction in it will do.
  abbrev pub IsPassed : List env.Tx → Type 0
  IsPassed = All (λ tx. IsOwn env otx tx → IsUnmined tx)

  abbrev pub IsSearched : ℕ → Type 0
  IsSearched k = (t : ℕ) × IsPassed (txs_of env (env.block_txs t k))

  IsOwn-is_candidate : (tx : env.Tx) → IsOwn env otx tx → is_candidate env otx tx ≡ true
  IsOwn-is_candidate tx h = rw h.sender (ground (arith, h.nonce, h.account))

  candidate-IsPassed :
      (tx : env.Tx) (t : ℕ) (r : Option (Option Receipt)) (rest : M (Option Found)) (w : World)
      → env.tx_receipt t (env.tx_hash tx) ≡ r
      → (found_or env tx r rest w).0 ≡ ok none
      → IsUnmined tx × ((rest w).0 ≡ ok none)
  unfolding pure
  candidate-IsPassed tx t none rest w e h = ((t, inl e), h)
  candidate-IsPassed tx t (some none) rest w e h = ((t, inr e), h)
  candidate-IsPassed tx t (some (some r)) rest w e h = cc

  scan_txs-IsPassed :
      (txs : List env.Tx) (w : World) → (scan_txs env otx txs w).0 ≡ ok none → IsPassed txs
  unfolding scan_txs tick ◌>>=◌
  scan_txs-IsPassed [] w h = tt
  scan_txs-IsPassed (tx ∷ txs) w h = elim (Bool-cases (is_candidate env otx tx)) [
    | inl c ↦
        let (unmined, rest) = candidate-IsPassed tx w.clock _ _ _ refl (rw c at h) in
        (λ own. unmined, scan_txs-IsPassed txs _ rest)
    | inr n ↦ (λ own. let c = IsOwn-is_candidate tx own in cc, scan_txs-IsPassed txs w (rw n at h))
  ]

  not_stopped :
      (r : Result (Option Found)) (rest : M (Option Found)) (w : World)
      → (continue r (λ f. stop_or env f rest) w).0 ≡ ok none
      → (r ≡ ok none) × ((rest w).0 ≡ ok none)
  unfolding pure
  not_stopped (err e) rest w h = cc
  not_stopped (ok none) rest w h = (refl, h)
  not_stopped (ok (some f)) rest w h = cc

  scan_blocks-IsSearched :
      (n from : ℕ) (w : World)
      → (scan_blocks env otx n from w).0 ≡ ok none
      → (k : ℕ) → from ≤ k
      → k < from + n
      → IsSearched k
  unfolding scan_blocks tick ◌>>=◌
  scan_blocks-IsSearched zero from w h k l u = absurd (omega (arith, l, u))
  scan_blocks-IsSearched (suc n) from w h k l u =
      let txs = txs_of env (env.block_txs w.clock from) in
      let v = record w { clock = suc w.clock } in
      let (here, later) =
        not_stopped (scan_txs env otx txs v).0 (scan_blocks env otx n (from + 1))
          (scan_txs env otx txs v).1 h in
      elim (Bool-cases (k == from)) [
        | inl t ↦
            let same : k ≡ from = ground (arith, t) in
            rw same (w.clock, scan_txs-IsPassed txs v here)
        | inr f ↦
            scan_blocks-IsSearched n (from + 1) _ later k (ground (arith, f, l)) (omega (arith, u))
      ]

  module _ (f : ℕ → ℕ → Option (Option (List env.Tx))) where
    scan_txs_local :
        (txs : List env.Tx) → scan_txs (with_blocks env f) otx txs ≡ scan_txs env otx txs
    unfolding scan_txs
    scan_txs_local [] = refl
    scan_txs_local (tx ∷ txs) =
        ap
          (λ rest.
            if is_candidate env otx tx
            then (tick >>= λ t. found_or env tx (env.tx_receipt t (env.tx_hash tx)) rest)
            else rest)
          (scan_txs_local txs)

    scan_blocks_local :
        (n from : ℕ)
        → ((t k : ℕ) → from ≤ k → k < from + n → f t k ≡ env.block_txs t k)
        → scan_blocks (with_blocks env f) otx n from ≡ scan_blocks env otx n from
    unfolding scan_blocks
    scan_blocks_local zero from h = refl
    scan_blocks_local (suc n) from h =
        let rest =
          scan_blocks_local n (from + 1) (λ t k l u. h t k (omega (arith, l)) (omega (arith, u))) in
        λ i. tick >>= λ t.
        scan_txs_local (txs_of env (h t from (omega arith) (omega arith) i)) i >>= λ x.
        stop_or env x (rest i)

  -- The scan that starts from an anchor's block `b` reads no block but the last six up to `b`, or
  -- `b` alone where `b` is at most 5: on any chain with the same blocks there it does the same. And
  -- it reads each of them: where it finds nothing, each has been gone through in some answer of the
  -- node, and for every transaction in it of the account with the nonce there was no receipt.
  pub scan_anchor_lem :
      (b : ℕ)
      → ((f : ℕ → ℕ → Option (Option (List env.Tx)))
          → ((t k : ℕ) → IsNear b k → f t k ≡ env.block_txs t k)
          → scan_anchor (with_blocks env f) otx b ≡ scan_anchor env otx b)
        × ((w : World)
            → (scan_anchor env otx b w).0 ≡ ok none
            → (k : ℕ) → IsNear b k
            → IsSearched k)
  unfolding scan_anchor
  scan_anchor_lem b = (
    λ f h. scan_blocks_local f _ _ (λ t k l u.
        h t k (ground (arith, l, u), ground (arith, l, u), λ e. ground (arith, l, u, e))),
    λ w h k (l, u, only).
        scan_blocks-IsSearched _ _ w h k (ground (arith, l, u, only)) (ground (arith, l, u, only)),
  )
