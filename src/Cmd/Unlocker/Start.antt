-- ===== src/Cmd/Unlocker/Start.antt =====
-- The start and the end of cmd/unlocker/main.go: the flags, the store, the nodes, and the list of
-- the accounts that need gas.
use Prim.Native.String.{◌++◌}
use eth_custodial.Prelude.{
  String, Bool, not, Option, none, some, List, [], ◌∷◌, keep, if◌then◌else◌, str_eq,
}
use eth_custodial.Prelude.Int.{ℤ}
use mathlib.Core.List.{map}
use eth_custodial.Store.Results.{Error, Result, ok, err, panicked}
use eth_custodial.World.{World}
use eth_custodial.Runtime.{Env}
use eth_custodial.Cmd.Service.State.{Site, Process, Handle}
use eth_custodial.Cmd.Service.New.{new_pg_store}
use eth_custodial.Cmd.Unlocker.Text.{split_commas, trim_space, sort_texts}
use eth_custodial.Cmd.Unlocker.Nodes.{Node}
use eth_custodial.Cmd.Unlocker.{Tally, run}

-- The flags; where a path is, is the store's matter.
pub record Flags : Type 0 where
  pub rpc : String
  pub dry_run : Bool

-- How the process ends: by a panic, by `os.Exit(1)`, or by itself, with what it printed.
pub data Exit : Type 0 where
  panics : Exit
  exits : Exit
  returns : List String → Exit

-- `parseRPCEndpoints`; at a key without a value `MustString` panics.
unfoldable pub parse_rpc_endpoints : String → Option String → Option (List String)
parse_rpc_endpoints rpc_flag endpoint =
    if not (str_eq rpc_flag "")
    then some (keep (λ p. not (str_eq p "")) (map trim_space (split_commas rpc_flag)))
    else elim endpoint [ none ↦ none | some e ↦ some (e ∷ []) ]

-- The nodes that can be dialled, in order.
unfoldable pub dial_nodes : (String → Option Node) → List String → List Node
dial_nodes dial [] = []
dial_nodes dial (ep ∷ eps) =
    let rest = dial_nodes dial eps in elim (dial ep) [ none ↦ rest | some n ↦ n ∷ rest ]

abbrev pub csv_line : String → String → String
csv_line amount account = account ++ ("," ++ (amount ++ "\n"))

-- `printGasTopupCSV`, a text for each line; the accounts are `sortedAccounts`.
unfoldable pub gas_topup_csv : List String → String → List String
gas_topup_csv accounts amount = map (csv_line amount) (sort_texts accounts)

-- The end of `main`.
unfoldable pub finish : Result Tally → Exit
finish (ok t) = returns (gas_topup_csv t.no_gas_accounts "0.5")
finish (err panicked) = panics
finish (err e) = exits

-- `dial` is `w3.Dial`.
module _ (env : Env) (text : Error → String) (site : Site) (dial : String → Option Node)
    (flags : Flags) where
  open site use {conf}

  abbrev pub with_chain : List Node → Option ℤ → World → Exit × World
  with_chain nodes none w = (panics, w)
  with_chain nodes (some id) w = let (r, w') = run env text nodes flags.dry_run w in (finish r, w')

  abbrev pub with_nodes : List Node → World → Exit × World
  with_nodes [] w = (exits, w)
  with_nodes (n ∷ ns) w = with_chain (n ∷ ns) conf.chain_id w

  -- An empty list of endpoints ends the process as well.
  abbrev pub with_endpoints : Option (List String) → World → Exit × World
  with_endpoints none w = (panics, w)
  with_endpoints (some eps) w = with_nodes (dial_nodes dial eps) w

  abbrev pub with_store : Option (Handle × Process) → World → Exit × World
  with_store none w = (exits, w)
  with_store (some h) w = with_endpoints (parse_rpc_endpoints flags.rpc conf.chain_rpc_endpoint) w

  abbrev pub with_dsn : Option String → Process → World → Exit × World
  with_dsn none p w = (panics, w)
  with_dsn (some dsn) p w = with_store (new_pg_store site p) w

  unfoldable pub main : Process → World → Exit × World
  main p w = with_dsn conf.postgres_dsn p w
