-- ===== src/Tests/Unlock.antt =====
-- Whole calls of the command that unlocks accounts.
use eth_custodial.Prelude.{
  ◌≡◌, refl, String, Bool, true, false, Option, none, some, if◌then◌else◌, str_eq, [], ◌∷◌,
}
use eth_custodial.Store.Sound.Resent.{IsSameBook}
use eth_custodial.World.Inert.{IsInvisible}
use eth_custodial.Cmd.Unlocker.Text.{split_commas, trim_space, sort_texts}
use eth_custodial.Cmd.Unlocker.Nodes.{Node}
use eth_custodial.Cmd.Unlocker.Start.{Flags, main, parse_rpc_endpoints, gas_topup_csv}
use eth_custodial.Cmd.Unlocker.Topup.{IsTopup}
use eth_custodial.Cmd.Unlocker.Whole.{Prints, main_lem, main_dry-IsInvisible}
use eth_custodial.Cmd.Service.{new_process}
use eth_custodial.Tests.{sample_world, sample_db}
use eth_custodial.Tests.Unlocker.{mined_env}
use eth_custodial.Tests.StartUp.{sample_site}
use eth_custodial.Tests.Cmd.{sample_node, no_text}

abbrev sample_flags : Bool → Flags
sample_flags dry = record { rpc = "http, ,ws "; dry_run = dry }

-- The second endpoint cannot be dialled.
abbrev sample_dial : String → Option Node
sample_dial endpoint = if str_eq endpoint "http" then some sample_node else none

endpoints : parse_rpc_endpoints "http, ,ws " none ≡ some ("http" ∷ "ws" ∷ [])
unfolding parse_rpc_endpoints split_commas trim_space
endpoints = refl

lines : gas_topup_csv ("0xb" ∷ "0xa" ∷ []) "0.5" ≡ "0xa,0.5\n" ∷ "0xb,0.5\n" ∷ []
unfolding gas_topup_csv sort_texts
lines = refl

main_lem_example :
    let end =
      main mined_env no_text sample_site sample_dial
        (sample_flags false)
        new_process
        sample_world in
    IsSameBook sample_db end.1.committed × Prints IsTopup end.0
main_lem_example =
    main_lem mined_env no_text sample_site sample_dial (sample_flags false) new_process sample_world

main_dry-IsInvisible_example :
    let end =
      main mined_env no_text sample_site sample_dial (sample_flags true) new_process sample_world in
    IsInvisible sample_world end.1 × Prints (λ ls. ls ≡ []) end.0
main_dry-IsInvisible_example =
    main_dry-IsInvisible mined_env no_text sample_site sample_dial (sample_flags true) new_process
      sample_world refl
