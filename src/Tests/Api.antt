-- ===== src/Tests/Api.antt =====
-- The theorems on the HTTP interface at concrete requests.
use eth_custodial.Prelude.{◌≡◌, refl, true, false, some, [], ◌∷◌}
use eth_custodial.Prelude.Int.{pos}
use eth_custodial.Api.Requests.{TransferRequest, OtxByAccountRequest}
use eth_custodial.Api.Auth.{Token, Session, verified, login_handler}
use eth_custodial.Api.Rpc.{SendTransactionParams, eth_send_transaction}
use eth_custodial.Api.{Route, token_transfer, account_otx, api, handle, route, respond, serve}
use eth_custodial.Api.Safety.Settled.{serve-Settles}
use eth_custodial.Api.Safety.Settling.{Settles}
use eth_custodial.Api.Safety.Gate.{IsGated, route-IsGated}
use eth_custodial.Api.Safety.Pages.{IsListing, account_otx-IsListing}
use eth_custodial.Api.Safety.Sent.{IssuedBy, SentCall, eth_send_transaction-IssuedBy}
use eth_custodial.Api.Safety.Login.{login_handler-any_password}
use eth_custodial.Tests.{sample_env, failing_env, sample_world, sample_db}
use eth_custodial.Tests.Store.{sample_db-IsSound}

abbrev pub sample_token : Token
sample_token =
    verified (some (record { sub = some "app"; public_key = some "0xalice"; service = some false }))

abbrev sample_session : Session
sample_session = record { public_key = "0xalice"; service = false }

abbrev pub sample_request : TransferRequest
sample_request = record {
  from = "0xalice";
  to = "0xbob";
  token_address = "0xtoken";
  amount = "1000";
}

abbrev sample_route : Route
sample_route = api sample_token (token_transfer (some sample_request))

abbrev sample_listing : OtxByAccountRequest
sample_listing = record { address = "0xalice"; per_page = pos 500; cursor = pos 0; next = true }

-- Parameters that name an account of someone else.
abbrev sample_params : SendTransactionParams
sample_params = record { to = "0xbob"; from = "0xcarol"; value = "0x1"; data_ = "0x" }

serve-Settles_example :
    Settles sample_db
      (serve failing_env sample_route sample_world).0
      (serve failing_env sample_route sample_world).1.committed
serve-Settles_example = serve-Settles failing_env sample_route sample_world sample_db-IsSound

route-IsGated_example :
    IsGated sample_token
      (handle sample_env (token_transfer (some sample_request)))
      (route sample_env sample_route)
route-IsGated_example = route-IsGated sample_env sample_token (token_transfer (some sample_request))

account_otx-IsListing_example :
    IsListing "0xalice" 100
      (serve sample_env (api sample_token (account_otx (some sample_listing))) sample_world).0
    × IsListing "0xalice" 500
        (serve sample_env (api sample_token (account_otx (some sample_listing))) sample_world).0
account_otx-IsListing_example =
    account_otx-IsListing sample_env sample_token sample_listing sample_world

eth_send_transaction-IssuedBy_example :
    IssuedBy
      (SentCall sample_env sample_params)
      "0xalice"
      sample_db
      (respond
        (eth_send_transaction sample_env sample_session (some (sample_params ∷ [])) sample_world).0)
      (eth_send_transaction sample_env sample_session
        (some (sample_params ∷ []))
        sample_world).1.committed
eth_send_transaction-IssuedBy_example =
    eth_send_transaction-IssuedBy sample_env sample_session sample_params [] sample_world

login_handler-any_password_example :
    login_handler sample_env (some (record { email = "a@b.org"; password = "one" }))
    ≡ login_handler sample_env (some (record { email = "a@b.org"; password = "two" }))
login_handler-any_password_example =
    login_handler-any_password sample_env "a@b.org" "one" "two" refl refl
