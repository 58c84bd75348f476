-- ===== src/Tests/Cmd.antt =====
-- The theorems on the command that unlocks accounts, at concrete nodes.
use eth_custodial.Prelude.{◌+◌, ◌≡◌, String, false, some, [], ◌∷◌}
use eth_custodial.Store.Results.{Error}
use eth_custodial.World.Inert.{Yields}
use eth_custodial.Runtime.{done}
use eth_custodial.Cmd.Unlocker.Nodes.{Node}
use eth_custodial.Cmd.Unlocker.{process_otxs, no_tally}
use eth_custodial.Cmd.Unlocker.Count.{total, process_otxs-total}
use eth_custodial.Tests.{sample_world}
use eth_custodial.Tests.Unlocker.{mined_env, stuck_otx}

abbrev pub sample_node : Node
sample_node = record {
  nonce = λ t a. some 4;
  gas_price_and_tip = λ t. some (10, 1);
  receipt = λ t h. some (some (record { status = 1; block_number = some 9 }));
  take_raw_tx = λ t raw. done;
}

abbrev pub no_text : Error → String
no_text e = ""

process_otxs-total_example :
    Yields
      (λ x. total x ≡ 0 + 1)
      (process_otxs mined_env no_text
        (sample_node ∷ [])
        false
        "0xalice"
        4
        (stuck_otx ∷ [])
        false
        no_tally
        sample_world).0
process_otxs-total_example =
    process_otxs-total mined_env no_text (sample_node ∷ []) "0xalice" 4 (stuck_otx ∷ []) false
      no_tally sample_world
