-- ===== src/Cmd/Unlocker/Whole.antt =====
-- What a whole call of cmd/unlocker leaves and prints.
use eth_custodial.Prelude.{
  ℕ, ◌≡◌, refl, String, true, false, Option, none, some, List, [], ◌∷◌, ltb,
}
use eth_custodial.Prelude.Int.{ℤ}
use eth_custodial.Store.Tables.{Otx}
use eth_custodial.Store.Results.{Error, Result, ok, err, panicked}
use eth_custodial.Store.Sound.Resent.{IsSameBook}
use eth_custodial.Store.Sound.Rewrites.{IsSameBook-refl}
use eth_custodial.World.{World}
use eth_custodial.World.Inert.{IsInvisible, invisible, Yields}
use eth_custodial.Runtime.{Env}
use eth_custodial.Cmd.Service.State.{Site, Process, Handle}
use eth_custodial.Cmd.Service.New.{new_pg_store}
use eth_custodial.Cmd.Unlocker.Text.{sort_texts}
use eth_custodial.Cmd.Unlocker.Nodes.{Node}
use eth_custodial.Cmd.Unlocker.{
  Tally, Outcome, was_already_done, would_resubmit, count, logged, settle, process_otx, run,
  is_out_of_gas,
}
use eth_custodial.Cmd.Unlocker.Start.{
  Flags, Exit, panics, exits, returns, parse_rpc_endpoints, dial_nodes, gas_topup_csv, finish,
  with_chain, with_nodes, with_endpoints, with_store, with_dsn, main,
}
use eth_custodial.Cmd.Unlocker.Tallies.{
  Gives, Gives-after, Gives-pure, Gives-raise, Gives-if, Gives-run,
}
use eth_custodial.Cmd.Unlocker.Topup.{IsTopup, run-NamesOnce, gas_topup_csv-IsTopup}
use eth_custodial.Cmd.Unlocker.Safety.{run-IsSameBook}
use eth_custodial.Cmd.Unlocker.DryRun.{run_dry-IsInvisible}

-- A call ends before it has done anything, or with a run on some nodes.
module _ (env : Env) (text : Error → String) (site : Site) (dial : String → Option Node)
    (flags : Flags) (w : World) (P : Exit → World → Type 0) (panic : P panics w) (exit : P exits w)
    (runs : (nodes : List Node)
      → P
          (finish (run env text nodes flags.dry_run w).0)
          (run env text nodes flags.dry_run w).1) where
  open site use {conf}

  with_chain-cases :
      (nodes : List Node) (o : Option ℤ)
      → P
          (with_chain env text site dial flags nodes o w).0
          (with_chain env text site dial flags nodes o w).1
  with_chain-cases nodes none = panic
  with_chain-cases nodes (some id) = runs nodes

  with_nodes-cases :
      (nodes : List Node)
      → P
          (with_nodes env text site dial flags nodes w).0
          (with_nodes env text site dial flags nodes w).1
  with_nodes-cases [] = exit
  with_nodes-cases (n ∷ ns) = with_chain-cases (n ∷ ns) conf.chain_id

  with_endpoints-cases :
      (o : Option (List String))
      → P
          (with_endpoints env text site dial flags o w).0
          (with_endpoints env text site dial flags o w).1
  with_endpoints-cases none = panic
  with_endpoints-cases (some eps) = with_nodes-cases (dial_nodes dial eps)

  with_store-cases :
      (o : Option (Handle × Process))
      → P (with_store env text site dial flags o w).0 (with_store env text site dial flags o w).1
  with_store-cases none = exit
  with_store-cases (some h) =
      with_endpoints-cases (parse_rpc_endpoints flags.rpc conf.chain_rpc_endpoint)

  with_dsn-cases :
      (o : Option String) (p : Process)
      → P (with_dsn env text site dial flags o p w).0 (with_dsn env text site dial flags o p w).1
  with_dsn-cases none p = panic
  with_dsn-cases (some dsn) p = with_store-cases (new_pg_store site p)

  main-cases :
      (p : Process) → P (main env text site dial flags p w).0 (main env text site dial flags p w).1
  unfolding main
  main-cases p = with_dsn-cases conf.postgres_dsn p

-- The lines that a call prints.
abbrev pub Prints : (List String → Type 0) → Exit → Type 0
Prints Q panics = Unit
Prints Q exits = Unit
Prints Q (returns ls) = Q ls

finish-Prints :
    (Q : List String → Type 0) (r : Result Tally)
    → Yields (λ t. Q (gas_topup_csv t.no_gas_accounts "0.5")) r
    → Prints Q (finish r)
unfolding finish
finish-Prints Q (ok t) h = h
finish-Prints Q (err panicked) h = tt
finish-Prints Q (err e) h = tt

abbrev HasGas : Outcome → Type 0
HasGas o = is_out_of_gas o ≡ false

abbrev LacksNone : Tally → Type 0
LacksNone t = t.no_gas_accounts ≡ []

module _ (env : Env) (text : Error → String) (nodes : List Node) where
  logged-HasGas :
      {A : Type 0} (r : Result A) → Gives HasGas (logged r was_already_done was_already_done)
  logged-HasGas (ok a) = Gives-pure _ refl
  logged-HasGas (err panicked) = Gives-raise _
  logged-HasGas (err e) = Gives-pure _ refl

  process_otx-HasGas :
      (account : String) (n : ℕ) (o : Otx)
      → Gives HasGas (process_otx env text nodes true account n o)
  unfolding process_otx settle
  process_otx-HasGas account n o =
      Gives-if (ltb o.nonce n) _ _ (Gives-after _ _ logged-HasGas) (Gives-pure would_resubmit refl)

  count-LacksNone :
      (account : String) (o : Outcome) (t : Tally)
      → HasGas o
      → LacksNone t
      → LacksNone (count account o t)
  count-LacksNone account Outcome.was_resubmitted t g h = h
  count-LacksNone account Outcome.was_resigned t g h = h
  count-LacksNone account Outcome.was_already_done t g h = h
  count-LacksNone account Outcome.has_failed t g h = h
  count-LacksNone account Outcome.lacks_gas t g h = cc
  count-LacksNone account Outcome.would_resubmit t g h = h

  run_dry-LacksNone : Gives LacksNone (run env text nodes true)
  run_dry-LacksNone =
      Gives-run env text nodes true HasGas LacksNone
        (record { outcomes = process_otx-HasGas; counted = count-LacksNone; skipped = λ t h. h })
        refl

no_lines :
    (r : Result Tally)
    → Yields LacksNone r
    → Yields (λ t. gas_topup_csv t.no_gas_accounts "0.5" ≡ []) r
unfolding gas_topup_csv sort_texts
no_lines (ok t) h = rw h refl
no_lines (err e) h = tt

-- A call of cmd/unlocker with the flag -dry-run leaves the committed database, the transactions
-- handed to the nodes and the events as they were, and prints no account. The migrations that the
-- start runs are left out.
pub main_dry-IsInvisible :
    (env : Env) (text : Error → String) (site : Site) (dial : String → Option Node) (flags : Flags)
    (p : Process) (w : World)
    → flags.dry_run ≡ true
    → IsInvisible w (main env text site dial flags p w).1
      × Prints (λ ls. ls ≡ []) (main env text site dial flags p w).0
main_dry-IsInvisible env text site dial flags p w h =
    main-cases env text site dial flags w (λ x v. IsInvisible w v × Prints (λ ls. ls ≡ []) x)
      (invisible, tt) (invisible, tt)
      (λ nodes. rw h (
        run_dry-IsInvisible env text nodes w,
        finish-Prints _ _ (no_lines _ ((run_dry-LacksNone env text nodes).at w)),
      ))
      p

-- A call of cmd/unlocker, whatever its flags, its nodes and the way it ends, leaves the keys, the
-- master key, the next nonces, the queue, and the id, tracking id, type, signer and nonce of every
-- transaction as they were; the lines that it prints are of accounts in ascending order, none twice.
-- The migrations that the start runs are left out.
pub main_lem :
    (env : Env) (text : Error → String) (site : Site) (dial : String → Option Node) (flags : Flags)
    (p : Process) (w : World)
    → IsSameBook w.committed (main env text site dial flags p w).1.committed
      × Prints IsTopup (main env text site dial flags p w).0
main_lem env text site dial flags p w =
    main-cases env text site dial flags w
      (λ x v. IsSameBook w.committed v.committed × Prints IsTopup x)
      (IsSameBook-refl w.committed, tt) (IsSameBook-refl w.committed, tt)
      (λ nodes. (
        run-IsSameBook env text nodes flags.dry_run w,
        finish-Prints _ _
            (gas_topup_csv-IsTopup _ ((run-NamesOnce env text nodes flags.dry_run).at w)),
      ))
      p
