-- ===== src/Tests/Pools.antt =====
-- The contract of the pool workers at the concrete service.
use eth_custodial.Prelude.{◌≡◌, refl}
use eth_custodial.Jobs.{PoolSwapArgs}
use eth_custodial.Store.Types.{pool_swap}
use eth_custodial.Store.Results.{ok}
use eth_custodial.Store.Queries
use eth_custodial.World.{◌>>=◌, pure, raise, lift, gets, ignore_error, attempt}
use eth_custodial.Pg
use eth_custodial.Chain.{get_settings, string_to_big_int, add_referral_tag}
use eth_custodial.Worker.Signing.{sign_call, record_tx, announce}
use eth_custodial.Worker.Pools.{
  reset_approval, set_approval, initiate_swap, finish_pool, pool_swap_work,
}
use eth_custodial.Worker.Issue.Pools.{ThreeIssued, swap_calls}
use eth_custodial.Worker.Issue.Pools.Workers.{pool_swap_work-ThreeIssued}
use eth_custodial.Tests.{sample_env, sample_world, sample_db}

abbrev sample_swap : PoolSwapArgs
sample_swap = record {
  tracking_id = "t3";
  from = "0xalice";
  from_token_address = "0xtoken";
  to_token_address = "0xother";
  pool_address = "0xpool";
  amount = "1000";
}

swap_completes : (pool_swap_work sample_env sample_swap sample_world).0 ≡ ok tt
unfolding pool_swap_work reset_approval set_approval initiate_swap finish_pool Pg.begin Pg.external
    Pg.moment Pg.begin_at Pg.open_tx Pg.load_private_key Pg.read Pg.acquire_nonce Pg.write_returning
    Pg.insert_otx Pg.write Pg.next_otx_id Pg.insert_dispatch_tx Pg.next_dispatch_id
    Pg.insert_many_tx Pg.send Pg.add_event Pg.commit Pg.publish_working ◌>>=◌ pure raise lift gets
    ignore_error attempt Queries.load_key Queries.acquire_nonce Queries.insert_otx
    Queries.insert_dispatch get_settings string_to_big_int add_referral_tag sign_call record_tx
    announce
swap_completes = refl

pool_swap_work-ThreeIssued_example :
    ThreeIssued "0xalice" "t3" pool_swap
      (swap_calls sample_env sample_swap)
      sample_db
      (pool_swap_work sample_env sample_swap sample_world).1.committed
pool_swap_work-ThreeIssued_example =
    pool_swap_work-ThreeIssued sample_env sample_swap sample_world swap_completes
