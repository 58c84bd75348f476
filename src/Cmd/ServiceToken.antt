-- ===== src/Cmd/ServiceToken.antt =====
-- cmd/gen-service-token/main.go: the command that signs a token for a service, and
-- internal/util/key.go, which loads the key. The PEM decoder and the JWT library are parameters.
use Prim.Native.String.{◌++◌}
use eth_custodial.Prelude.{ℕ, ◌+◌, ◌*◌, String, true, Option, none, some, if◌then◌else◌, str_eq}
use eth_custodial.Runtime.{LoginClaims}
use eth_custodial.Api.Auth.{Claims}

-- How the command ends: by a panic, by `os.Exit(1)`, or with a token.
pub data Ending : Type 0 where
  panicked : Ending
  exited : Ending
  generated : String → Ending

-- `jwt.ParseEdPrivateKeyFromPEM`, `Public`, `SignedString` and `ParseWithClaims` at the method
-- Ed25519.
pub record Jwt : Type 1 where
  pub PrivateKey : Type 0
  pub PublicKey : Type 0
  pub parse_pem : String → Option PrivateKey
  pub public_of : PrivateKey → PublicKey
  pub signed_string : PrivateKey → LoginClaims → Option String
  pub parse_with_claims : PublicKey → String → Option LoginClaims

module _ (jwt : Jwt) where
  open jwt use {PrivateKey, PublicKey}

  abbrev pair_of : Option PrivateKey → Option (PrivateKey × PublicKey)
  pair_of none = none
  pair_of (some k) = some (k, jwt.public_of k)

  -- `LoadSigningKey`
  unfoldable pub load_signing_key : String → Option (PrivateKey × PublicKey)
  load_signing_key pem = pair_of (jwt.parse_pem pem)

  -- A token that could not be signed is the empty text, which is verified as well.
  abbrev pub token_or_empty : Option String → String
  token_or_empty none = ""
  token_or_empty (some t) = t

  abbrev pub checked : String → Option LoginClaims → Ending
  checked t none = exited
  checked t (some c) = generated t

  abbrev pub with_keys : LoginClaims → Option (PrivateKey × PublicKey) → Ending
  with_keys claims none = exited
  with_keys claims (some (priv, public)) =
      let t = token_or_empty (jwt.signed_string priv claims) in
      checked t (jwt.parse_with_claims public t)

  abbrev pub with_pem : LoginClaims → Option String → Ending
  with_pem claims none = panicked
  with_pem claims (some pem) = with_keys claims (load_signing_key pem)

  -- `defaultJWTExpiry` is 365 days.
  unfoldable pub service_claims : String → String → String → ℕ → LoginClaims
  service_claims zero_address build subject now = record {
    service = true;
    public_key = zero_address;
    issuer = "eth-custodial-" ++ build;
    subject = subject;
    issued_at = now;
    expires_at = now + 365 * 24 * 3600;
  }

  -- `main`, on the value of `api.private_key`.
  unfoldable pub generate : String → String → String → ℕ → Option String → Ending
  generate zero_address build subject now pem =
      if str_eq subject ""
      then exited
      else with_pem (service_claims zero_address build subject now) pem

-- The claims as the API's middleware reads them.
abbrev pub as_map : LoginClaims → Claims
as_map c = record { sub = some c.subject; public_key = some c.public_key; service = some c.service }
