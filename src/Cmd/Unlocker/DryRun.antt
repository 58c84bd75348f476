-- ===== src/Cmd/Unlocker/DryRun.antt =====
-- A dry run of cmd/unlocker.
use eth_custodial.Prelude.{
  Option, none, some, ℕ, ◌≤◌, ◌≡◌, refl, String, Bool, true, false, ◌&&◌, List, [], ◌∷◌, All,
  All-map, arith, leb, ltb, str_eq, keep,
}
use eth_custodial.Prelude.Sorting.{All-sort_by, All-keep}
use eth_custodial.Store.Tables.{Db, Otx}
use eth_custodial.Store.Results.{Error, Result, ok, err, panicked}
use eth_custodial.Store.Selects.{all_otx}
use eth_custodial.Store.Unlocks.{get_otx_at_or_above}
use eth_custodial.World.{World, M, raise, attempt}
use eth_custodial.World.Inert.{
  IsInvisible, Inert, invisible, Inert-bind, Inert-bind_known, Inert-pure, Inert-attempt, Yields,
}
use eth_custodial.Runtime.{Env}
use eth_custodial.Chain.{tick}
use eth_custodial.Pg
use eth_custodial.Pg.Inert.{Inert-query, query-Yields}
use eth_custodial.Cmd.Unlocker.Nodes.{Node, first_answer, answer_or}
use eth_custodial.Cmd.Unlocker.{
  Tally, skip, count, process_otx, process_otxs, with_otxs, with_nonce, process_account,
  process_accounts, run, is_out_of_gas,
}

Inert-tick : Inert tick
unfolding tick
Inert-tick w = record { committed = refl; sent = refl; events = refl }

Inert-answer_or : {A : Type 0} (r : Option A) (m : M A) → Inert m → Inert (answer_or r m)
Inert-answer_or none m h = h
Inert-answer_or (some a) m h = Inert-pure a

Inert-first_answer :
    {A : Type 0} (call : Node → ℕ → Option A) (nodes : List Node) → Inert (first_answer call nodes)
unfolding first_answer raise
Inert-first_answer call [] w = invisible
Inert-first_answer call (n ∷ ns) w =
    Inert-bind tick _ Inert-tick (λ t. Inert-answer_or (call n t) _ (Inert-first_answer call ns)) w

-- The nonces that the command looks at are no lower than the network's.
abbrev AreAbove : ℕ → List Otx → Type 0
AreAbove n = All (λ o. n ≤ o.nonce)

at_or_above : (a b : Bool) → (a && b) ≡ true → b ≡ true
at_or_above true b h = h
at_or_above false b h = cc

leb-≤ : (a b : ℕ) → leb a b ≡ true → a ≤ b
leb-≤ a b h = ground arith

get_otx_at_or_above-AreAbove :
    (account : String) (n : ℕ) (d : Db) → AreAbove n (get_otx_at_or_above account n d)
unfolding get_otx_at_or_above
get_otx_at_or_above-AreAbove account n d =
    let p : Otx → Bool = λ o. str_eq o.signer_account account && leb n o.nonce in
    All-sort_by (λ o. n ≤ o.nonce) (λ o. o.nonce) (keep p (all_otx d))
      (All-map (λ o. p o ≡ true) (λ o. n ≤ o.nonce) (keep p (all_otx d))
        (λ o h. leb-≤ n o.nonce (at_or_above _ _ h)) (All-keep p (all_otx d)))

not_below : (n m : ℕ) → n ≤ m → ltb m n ≡ false
not_below n m h = ground arith

module _ (env : Env) (text : Error → String) (nodes : List Node) where
  Inert-process_otx :
      (account : String) (n : ℕ) (o : Otx)
      → n ≤ o.nonce
      → Inert (process_otx env text nodes true account n o)
  unfolding process_otx
  Inert-process_otx account n o h = rw (not_below n o.nonce h) (Inert-pure _)

  Inert-process_otxs :
      (account : String) (n : ℕ) (os : List Otx) (skips : Bool) (t : Tally)
      → AreAbove n os
      → Inert (process_otxs env text nodes true account n os skips t)
  unfolding process_otxs
  Inert-process_otxs account n [] skips t h = Inert-pure t
  Inert-process_otxs account n (o ∷ os) true t h = Inert-process_otxs account n os true (skip t) h.1
  Inert-process_otxs account n (o ∷ os) false t h =
      Inert-bind _ _ (Inert-process_otx account n o h.0)
        λ r. Inert-process_otxs account n os (is_out_of_gas r) (count account r t) h.1

  Inert-with_otxs :
      (account : String) (n : ℕ) (t : Tally) (r : Result (List Otx))
      → Yields (AreAbove n) r
      → Inert (with_otxs env text nodes true account n t r)
  unfolding raise
  Inert-with_otxs account n t (ok os) h w = Inert-process_otxs account n os false t h w
  Inert-with_otxs account n t (err panicked) h w = invisible
  Inert-with_otxs account n t (err e) h w = Inert-pure _ w

  attempt-Yields :
      {A : Type 0} (P : A → Type 0) (f : Db → Result A)
      → ((d : Db) → Yields P (f d))
      → (w : World) → Yields (Yields P) (attempt (Pg.query env f) w).0
  unfolding attempt
  attempt-Yields P f h w = query-Yields env P f h w

  Inert-with_nonce :
      (account : String) (t : Tally) (r : Result ℕ)
      → Inert (with_nonce env text nodes true account t r)
  unfolding with_nonce raise
  Inert-with_nonce account t (ok n) =
      let f : Db → Result (List Otx) = λ d. ok (get_otx_at_or_above account n d) in
      Inert-bind_known (Yields (AreAbove n)) (attempt (Pg.query env f)) _
        (Inert-attempt _ (Inert-query env f))
        (attempt-Yields (AreAbove n) f (λ d. get_otx_at_or_above-AreAbove account n d))
        (λ r h. Inert-with_otxs account n t r h)
  Inert-with_nonce account t (err panicked) = λ w. invisible
  Inert-with_nonce account t (err e) = Inert-pure _

  Inert-process_account :
      (account : String) (t : Tally) → Inert (process_account env text nodes true account t)
  unfolding process_account
  Inert-process_account account t =
      Inert-bind _ _ (Inert-attempt _ (Inert-first_answer _ nodes)) (Inert-with_nonce account t)

  Inert-process_accounts :
      (accounts : List String) (t : Tally) → Inert (process_accounts env text nodes true accounts t)
  unfolding process_accounts
  Inert-process_accounts [] t = Inert-pure t
  Inert-process_accounts (a ∷ as_) t =
      Inert-bind _ _ (Inert-process_account a t) (Inert-process_accounts as_)

  -- A dry run changes nothing: the committed database, the transactions handed to the nodes and the
  -- events are as before, whatever the nodes answer.
  pub run_dry-IsInvisible : (w : World) → IsInvisible w (run env text nodes true w).1
  unfolding run Pg.moment
  run_dry-IsInvisible =
      Inert-bind _ _ (λ w. invisible)
        λ t. Inert-bind _ _ (Inert-query env _) λ stuck. Inert-process_accounts _ _
