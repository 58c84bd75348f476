-- ===== src/Worker/Unlocker/Scan.antt =====
-- What the scan of `recoverOrphanedNonce` finds.
pub mod Range
use eth_custodial.Prelude.{
  ℕ, zero, suc, ◌+◌, ◌≤◌, ◌<◌, ◌≡◌, refl, ◌⊎◌, inl, inr, String, true, if◌then◌else◌, ◌==◌, Option,
  none, some, List, [], ◌∷◌, arith, Bool-cases,
}
use eth_custodial.Store.Types.{success, reverted}
use eth_custodial.Store.Tables.{Otx}
use eth_custodial.Store.Results.{Result, ok, err}
use eth_custodial.World.{World, M, pure, continue, ◌>>=◌}
use eth_custodial.Runtime.{Env, Receipt}
use eth_custodial.Chain.{tick}
use eth_custodial.Worker.Unlocker.Recovery.{
  Found, is_candidate, is_from, found_or, scan_txs, txs_of, stop_or, scan_blocks,
}

abbrev pub Has : {A : Type 0} → A → List A → Type 0
Has a [] = ⊥
Has a (b ∷ bs) = (b ≡ a) ⊎ Has a bs

-- A transaction of the account with the nonce.
pub record IsOwn (env : Env) (otx : Otx) (tx : env.Tx) : Type 0 where
  pub nonce : (env.tx_fields tx).nonce ≡ otx.nonce
  pub signer : String
  pub sender : env.sender tx ≡ some signer
  pub account : env.equal_fold signer otx.signer_account ≡ true

-- What is found is a transaction of the block: the account's, with the nonce, and with a receipt.
pub record IsFoundIn (env : Env) (otx : Otx) (txs : List env.Tx) (f : Found) : Type 0 where
  pub tx : env.Tx
  pub among : Has tx txs
  pub own : IsOwn env otx tx
  pub hash : f.hash ≡ env.tx_hash tx
  pub at : ℕ
  pub receipt : Receipt
  pub mined : env.tx_receipt at (env.tx_hash tx) ≡ some (some receipt)
  pub status : f.status ≡ (if receipt.status == 1 then success else reverted)

abbrev pub Finds : {A : Type 0} → (A → Type 0) → Result (Option A) → Type 0
Finds P (err e) = Unit
Finds P (ok none) = Unit
Finds P (ok (some a)) = P a

Finds-map :
    {A : Type 0} {P Q : A → Type 0} (r : Result (Option A))
    → ((a : A) → P a → Q a)
    → Finds P r
    → Finds Q r
Finds-map (err e) f h = tt
Finds-map (ok none) f h = tt
Finds-map (ok (some a)) f h = f a h

-- The same for one of `n` blocks from a number on.
pub record IsFoundBetween (env : Env) (otx : Otx) (n from : ℕ) (f : Found) : Type 0 where
  pub number : ℕ
  pub above : from ≤ number
  pub below : number < from + n
  pub at : ℕ
  pub txs : List env.Tx
  pub block : env.block_txs at number ≡ some (some txs)
  pub found : IsFoundIn env otx txs f

stopped :
    (env : Env) (P : Found → Type 0) (r : Result (Option Found)) (rest : M (Option Found))
    (w : World)
    → Finds P r
    → ((v : World) → Finds P (rest v).0)
    → Finds P (continue r (λ f. stop_or env f rest) w).0
unfolding pure
stopped env P (err e) rest w h k = tt
stopped env P (ok none) rest w h k = k w
stopped env P (ok (some f)) rest w h k = h

module _ (env : Env) (otx : Otx) where
  further :
      (n from : ℕ) (f : Found)
      → IsFoundBetween env otx n (from + 1) f
      → IsFoundBetween env otx (suc n) from f
  further n from f h = record {
    number = h.number;
    above = ground (arith, h.above);
    below = ground (arith, h.below);
    at = h.at;
    txs = h.txs;
    block = h.block;
    found = h.found;
  }

  here :
      (n from t : ℕ) (b : Option (Option (List env.Tx))) (r : Result (Option Found))
      → env.block_txs t from ≡ b
      → Finds (IsFoundIn env otx (txs_of env b)) r
      → Finds (IsFoundBetween env otx (suc n) from) r
  here n from t b (err e) q h = tt
  here n from t b (ok none) q h = tt
  here n from t none (ok (some f)) q h = elim h.among [ ]
  here n from t (some none) (ok (some f)) q h = elim h.among [ ]
  here n from t (some (some txs)) (ok (some f)) q h = record {
    number = from;
    above = ground arith;
    below = ground arith;
    at = t;
    txs = txs;
    block = q;
    found = h;
  }

  later :
      (tx : env.Tx) (txs : List env.Tx) (f : Found)
      → IsFoundIn env otx txs f
      → IsFoundIn env otx (tx ∷ txs) f
  later tx txs f h = record {
    tx = h.tx;
    among = inr h.among;
    own = h.own;
    hash = h.hash;
    at = h.at;
    receipt = h.receipt;
    mined = h.mined;
    status = h.status;
  }

  sent_by :
      (tx : env.Tx) (o : Option String)
      → env.sender tx ≡ o
      → (env.tx_fields tx).nonce ≡ otx.nonce
      → is_from env o otx.signer_account ≡ true
      → IsOwn env otx tx
  sent_by tx none e n h = cc
  sent_by tx (some s) e n h = record { nonce = n; signer = s; sender = e; account = h }

  is_candidate-IsOwn : (tx : env.Tx) → is_candidate env otx tx ≡ true → IsOwn env otx tx
  is_candidate-IsOwn tx h = sent_by tx _ refl (ground arith) (ground arith)

  candidate_Finds :
      (tx : env.Tx) (txs : List env.Tx) (t : ℕ) (r : Option (Option Receipt))
      (rest : M (Option Found)) (w : World)
      → is_candidate env otx tx ≡ true
      → env.tx_receipt t (env.tx_hash tx) ≡ r
      → Finds (IsFoundIn env otx txs) (rest w).0
      → Finds (IsFoundIn env otx (tx ∷ txs)) (found_or env tx r rest w).0
  unfolding pure
  candidate_Finds tx txs t none rest w c e h = Finds-map (rest w).0 (later tx txs) h
  candidate_Finds tx txs t (some none) rest w c e h = Finds-map (rest w).0 (later tx txs) h
  candidate_Finds tx txs t (some (some r)) rest w c e h = record {
    tx = tx;
    among = inl refl;
    own = is_candidate-IsOwn tx c;
    hash = refl;
    at = t;
    receipt = r;
    mined = e;
    status = refl;
  }

  scan_txs-Finds :
      (txs : List env.Tx) (w : World) → Finds (IsFoundIn env otx txs) (scan_txs env otx txs w).0
  unfolding scan_txs pure tick ◌>>=◌
  scan_txs-Finds [] w = tt
  scan_txs-Finds (tx ∷ txs) w = elim (Bool-cases (is_candidate env otx tx)) [
    | inl c ↦ rw c (candidate_Finds tx txs w.clock _ _ _ c refl (scan_txs-Finds txs _))
    | inr n ↦ rw n (Finds-map _ (later tx txs) (scan_txs-Finds txs w))
  ]

  -- A transaction that the scan of `n` blocks finds is one of the account's, with the orphaned
  -- nonce, in a block with a number from `from` to `from + n - 1`; the status found is that of its
  -- receipt.
  pub scan_blocks-Finds :
      (n from : ℕ) (w : World)
      → Finds (IsFoundBetween env otx n from) (scan_blocks env otx n from w).0
  unfolding scan_blocks tick ◌>>=◌ pure
  scan_blocks-Finds zero from w = tt
  scan_blocks-Finds (suc n) from w =
      let v = record w { clock = suc w.clock } in
      let txs = txs_of env (env.block_txs w.clock from) in
      stopped env (IsFoundBetween env otx (suc n) from) (scan_txs env otx txs v).0
        (scan_blocks env otx n (from + 1)) (scan_txs env otx txs v).1
        (here n from w.clock (env.block_txs w.clock from) _ refl (scan_txs-Finds txs v))
        (λ u. Finds-map _ (further n from) (scan_blocks-Finds n (from + 1) u))
