-- ===== src/Api/Safety/Login.antt =====
-- What `loginHandler` asks for.
use eth_custodial.Prelude.{◌≡◌, refl, String, true, some}
use eth_custodial.Runtime.{Env}
use eth_custodial.Api.Requests.{required}
use eth_custodial.Api.Auth.{login_valid, login_handler}

-- The answer to a login is the same for any two passwords that are not empty.
pub login_handler-any_password :
    (env : Env) (email p q : String)
    → required p ≡ true
    → required q ≡ true
    → login_handler env (some (record { email = email; password = p }))
      ≡ login_handler env (some (record { email = email; password = q }))
unfolding login_handler login_valid
login_handler-any_password env email p q h k = rw (h, k) refl
