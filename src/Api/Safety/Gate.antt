-- ===== src/Api/Safety/Gate.antt =====
-- Who gets past the check of the token.
use eth_custodial.Prelude.{
  if◌then◌else◌, ◌≡◌, refl, ◌⊎◌, inl, inr, String, Bool, true, false, Option, none, some,
}
use eth_custodial.World.{World, M, pure}
use eth_custodial.Runtime.{Env}
use eth_custodial.Api.Response.{Reply, err_response}
use eth_custodial.Api.Auth.{
  Token, Session, Claims, missing, invalid, other_error, no_token, verified, is_revoked, sub_of,
  with_claims, authenticate,
}
use eth_custodial.Api.{Request, api, handle, route}

-- The token is signed, not revoked, and names the key and the service flag of the session.
pub record Grants (t : Token) (s : Session) : Type 0 where
  pub claims : Claims
  pub signed : t ≡ verified (some claims)
  pub in_force : is_revoked (sub_of claims.sub) ≡ false
  pub public_key : claims.public_key ≡ some s.public_key
  pub service : claims.service ≡ some s.service

pub record IsUnauthorized (m : M Reply) : Type 0 where
  pub description : String
  pub err_code : String
  pub answer : (w : World) → m w ≡ pure (err_response 401 description err_code) w

-- Either the handler runs, for the session that the token grants, or the answer is 401.
abbrev pub IsGated : Token → (Session → M Reply) → M Reply → Type 0
IsGated t k m = ((s : Session) × Grants t s × (m ≡ k s)) ⊎ IsUnauthorized m

refused :
    (t : Token) (k : Session → M Reply) (d x : String) → IsGated t k (pure (err_response 401 d x))
refused t k d x = inr (record { description = d; err_code = x; answer = λ w. refl })

claimed :
    (claims : Claims) (k : Session → M Reply) (pk : Option String) (s : Option Bool)
    → is_revoked (sub_of claims.sub) ≡ false
    → claims.public_key ≡ pk
    → claims.service ≡ s
    → IsGated (verified (some claims)) k (with_claims pk s k)
claimed claims k none s h hp hs = refused _ k _ _
claimed claims k (some pk) none h hp hs = refused _ k _ _
claimed claims k (some pk) (some s) h hp hs = inl (
  record { public_key = pk; service = s },
  record { claims = claims; signed = refl; in_force = h; public_key = hp; service = hs },
  refl,
)

revoked :
    (claims : Claims) (k : Session → M Reply) (b : Bool)
    → is_revoked (sub_of claims.sub) ≡ b
    → IsGated (verified (some claims)) k (
        if b
        then pure (err_response 401 "Token has been revoked" "")
        else with_claims claims.public_key claims.service k)
revoked claims k true h = refused _ k _ _
revoked claims k false h = claimed claims k claims.public_key claims.service h refl refl

authenticate-IsGated : (t : Token) (k : Session → M Reply) → IsGated t k (authenticate t k)
unfolding authenticate
authenticate-IsGated missing k = refused _ k _ _
authenticate-IsGated invalid k = refused _ k _ _
authenticate-IsGated other_error k = refused _ k _ _
authenticate-IsGated no_token k = refused _ k _ _
authenticate-IsGated (verified none) k = refused _ k _ _
authenticate-IsGated (verified (some claims)) k =
    revoked claims k (is_revoked (sub_of claims.sub)) refl

-- A request below `/api/v2` either is handled for a session that the token grants: it is signed,
-- its subject is none of the revoked ones, and it has the key and the service flag of the session;
-- or it is answered with the status 401, whatever it asks for, and the world is as before.
pub route-IsGated :
    (env : Env) (t : Token) (req : Request) → IsGated t (handle env req) (route env (api t req))
unfolding route
route-IsGated env t req = authenticate-IsGated t (handle env req)
