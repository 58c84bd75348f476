-- ===== src/Tests/Start.antt =====
-- The theorems on the start of the service, on the gas oracle and on the resigner at concrete
-- inputs.
use eth_custodial.Prelude.{◌+◌, ◌*◌, ◌≤◌, ◌<◌, ◌≡◌, refl, false, some, none, List, [], ◌∷◌}
use eth_custodial.Prelude.Int.{pos}
use eth_custodial.Jobs.{Key}
use eth_custodial.Store.Results.{ok}
use eth_custodial.Store.Queries
use eth_custodial.Store.Queries.{has_key, next_nonce_of}
use eth_custodial.World.{World}
use eth_custodial.Runtime.{Env, ContractExecutionTxOpts}
use eth_custodial.Pg.Bootstrap.{bootstrap}
use eth_custodial.Pg.Bootstrap.Master.{bootstrap_first, bootstrap_again}
use eth_custodial.Gas.{GasAnswer, Signal, tick, stop, new_rpc_gas_oracle, start}
use eth_custodial.Gas.Updates.{latest, settings_for, start_lem}
use eth_custodial.Worker.Resigner.{decode_tx, bump_gas}
use eth_custodial.Worker.Resigner.Bump.{bump_gas_replaces}
use eth_custodial.Tests.{sample_env, sample_db, sample_world}

abbrev master : Key
master = record { public = "0xmaster"; private = "bb" }

unused : Queries.has_key 2 sample_db.keystore ≡ false
unfolding Queries.has_key
unused = refl

no_nonce : next_nonce_of 2 sample_db.noncestore ≡ none
unfolding next_nonce_of
no_nonce = refl

bootstrap_first_example :
    ((bootstrap sample_env (some master) sample_world).0 ≡ ok tt)
    × (Queries.load_master_key (bootstrap sample_env (some master) sample_world).1.committed
        ≡ ok master)
bootstrap_first_example =
    bootstrap_first sample_env master sample_world (λ t. refl) refl unused no_nonce

-- Alice's key is the master key.
abbrev mastered_world : World
mastered_world = record sample_world { committed = record sample_db { master_key = 1 ∷ [] } }

abbrev alice : Key
alice = record { public = "0xalice"; private = "aa" }

stored : Queries.load_master_key mastered_world.committed ≡ ok alice
unfolding Queries.load_master_key
stored = refl

bootstrap_again_example :
    ((bootstrap sample_env (some master) mastered_world).0 ≡ ok tt)
    × ((bootstrap sample_env (some master) mastered_world).1.committed ≡ mastered_world.committed)
    × ((bootstrap sample_env (some master) mastered_world).1.keystore_seq ≡ 2)
bootstrap_again_example =
    bootstrap_again sample_env (some master) alice mastered_world (λ t. refl) stored

abbrev cheap : GasAnswer
cheap = record { gas_price = 100; gas_tip_cap = 2 }

abbrev dear : GasAnswer
dear = record { gas_price = 251; gas_tip_cap = 3 }

abbrev signals : List Signal
signals = tick 1 (some dear) ∷ tick 2 none ∷ stop ∷ tick 3 (some cheap) ∷ []

oracle_made : new_rpc_gas_oracle 350000 0 (some cheap) ≡ ok (settings_for 350000 cheap)
unfolding new_rpc_gas_oracle
oracle_made = refl

start_lem_example :
    (start signals (settings_for 350000 cheap) ≡ settings_for 350000 (latest signals cheap))
    × ((latest signals cheap).gas_price ≤ (start signals (settings_for 350000 cheap)).gas_fee_cap)
start_lem_example = start_lem 350000 0 cheap (settings_for 350000 cheap) signals oracle_made

abbrev stuck_env : Env
stuck_env = record sample_env {
  unmarshal_binary = λ raw. some 4;
  tx_fields = λ tx. record {
    nonce = tx;
    to = some (9 ∷ []);
    value = pos 0;
    input = [];
    gas = 21000;
    gas_fee_cap = 10;
    gas_tip_cap = 1;
  };
}

decoded : decode_tx stuck_env "0x04" ≡ ok 4
unfolding decode_tx
decoded = refl

bump_gas_replaces_example :
    (o : ContractExecutionTxOpts) × (bump_gas stuck_env "0x04" ≡ ok o)
    × (o.contract_address ≡ 9 ∷ [])
    × (o.input_data ≡ [])
    × (o.gas_limit ≡ 21000)
    × (o.gas_tip_cap ≡ 1)
    × (o.nonce ≡ 4)
    × (o.gas_fee_cap * 100 ≤ 10 * 115)
    × (10 * 115 < o.gas_fee_cap * 100 + 100)
    × (10 ≤ o.gas_fee_cap)
bump_gas_replaces_example = bump_gas_replaces stuck_env "0x04" 4 (9 ∷ []) decoded refl refl
