-- ===== src/Api/Auth.antt =====
-- internal/api/auth.go: the token of a request, the login and the logout.
use Prim.Native.String.{◌++◌}
use eth_custodial.Prelude.{
  ℕ, ◌+◌, ◌*◌, String, Bool, false, ◌||◌, Option, none, some, str_eq, if◌then◌else◌,
}
use eth_custodial.Store.Results.{or_error, sign_failed}
use eth_custodial.World.{M, pure, lift, ◌>>=◌}
use eth_custodial.Runtime.{Env, LoginClaims}
use eth_custodial.Pg
use eth_custodial.Api.Response.{
  Reply, ok_response, err_response, logged_in, logged_out, jwt_auth_error, with_request,
}
use eth_custodial.Api.Requests.{LoginRequest, valid_login}

-- The claims that the code reads, where they have the right type.
pub record Claims : Type 0 where
  pub sub : Option String
  pub public_key : Option String
  pub service : Option Bool

-- What echo-jwt makes of the header and the cookie: an error, or a token whose signature it has
-- verified, with its `MapClaims`.
pub data Token : Type 0 where
  missing invalid other_error : Token
  no_token : Token
  verified : Option Claims → Token

-- What the middleware sets for the handlers.
pub record Session : Type 0 where
  pub public_key : String
  pub service : Bool

abbrev pub sub_of : Option String → String
sub_of none = ""
sub_of (some s) = s

abbrev pub is_revoked : String → Bool
is_revoked subject =
    str_eq subject "sarafu-network" || str_eq subject "sn-prod" || str_eq subject "ussd-prod"

abbrev pub with_claims : Option String → Option Bool → (Session → M Reply) → M Reply
with_claims none service next = pure (jwt_auth_error "Public key missing in JWT claims")
with_claims (some pk) none next = pure (jwt_auth_error "Service key missing in JWT claims")
with_claims (some pk) (some s) next = next (record { public_key = pk; service = s })

-- `apiJWTAuthConfig` and `authStatusMiddleware`
unfoldable pub authenticate : Token → (Session → M Reply) → M Reply
authenticate missing next =
    pure (jwt_auth_error "token missing from Authorization header or cookie")
authenticate invalid next = pure (jwt_auth_error "token is invalid or expired")
authenticate other_error next = pure (jwt_auth_error "An unknown JWT error occurred")
authenticate no_token next = pure (jwt_auth_error "JWT token missing or invalid")
authenticate (verified none) next = pure (jwt_auth_error "JWT invalid claims")
authenticate (verified (some claims)) next =
    if is_revoked (sub_of claims.sub)
    then pure (err_response 401 "Token has been revoked" "")
    else with_claims claims.public_key claims.service next

module _ (env : Env) where
  -- `defaultExpiryPeriod` is a day.
  abbrev pub login_claims : ℕ → LoginClaims
  login_claims now = record {
    service = false;
    public_key = env.zero_address;
    issuer = "eth-custodial-" ++ env.build;
    subject = env.zero_address;
    issued_at = now;
    expires_at = now + 24 * 3600;
  }

  -- The password is not looked at.
  unfoldable pub login_valid : LoginRequest → M Reply
  login_valid req = do
    t ← Pg.moment env
    token ← lift (or_error (env.sign_token (login_claims (env.now t))) sign_failed)
    pure (
        ok_response "Login successful"
          (logged_in token (record { value = token; expires = some (env.now t + 24 * 3600) })))

  -- `loginHandler`
  unfoldable pub login_handler : Option LoginRequest → M Reply
  login_handler body = with_request (valid_login env) body login_valid

-- `logoutHandler`
unfoldable pub logout_handler : M Reply
logout_handler =
    pure (ok_response "Logout successful" (logged_out (record { value = ""; expires = none })))
