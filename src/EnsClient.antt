-- ===== src/EnsClient.antt =====
-- internal/ens_client/client.go: the registration of a name. The worker that deploys a pool calls it
-- and goes on whatever it answers. The encoder and the decoder of JSON and the HTTP client are
-- parameters.
use Prim.Native.String.{◌++◌}
use eth_custodial.Prelude.{ℕ, String, Bool, Option, none, some, List, [], ◌∷◌, leb, if◌then◌else◌}

pub record RegisterInput : Type 0 where
  pub address : String
  pub hint : String

pub record RegisterResult : Type 0 where
  pub address : String
  pub auto_choose : Bool
  pub name : String

pub record RegisterResponse : Type 0 where
  pub succeeded : Bool
  pub description : String
  pub result : RegisterResult

pub record HttpRequest : Type 0 where
  pub url : String
  pub headers : List (String × String)
  pub body : String

-- `body` is `none` where it cannot be read.
pub record HttpResponse : Type 0 where
  pub status_code : ℕ
  pub status : String
  pub body : Option String

pub record Http : Type 0 where
  pub encode_json : RegisterInput → Option String
  -- `http.NewRequestWithContext` refuses a malformed address
  pub is_url : String → Bool
  pub do_request : HttpRequest → Option HttpResponse
  pub decode_json : String → Option RegisterResponse

pub record Client : Type 0 where
  pub api_key : String
  pub endpoint : String

pub data EnsError : Type 0 where
  bad_input bad_url not_sent unreadable bad_answer : EnsError
  server_error : String → EnsError

pub data EnsAnswer : Type 0 where
  registered : RegisterResponse → EnsAnswer
  ens_error : EnsError → EnsAnswer

abbrev pub register_api_path : String
register_api_path = "/api/v1/internal/register"

abbrev pub set_default_headers : Client → List (String × String)
set_default_headers c =
    ("Authorization", "Bearer " ++ c.api_key)
    ∷ ("Accept", "application/json")
    ∷ ("Content-Type", "application/json")
    ∷ []

module _ (http : Http) where
  abbrev pub decoded : Option RegisterResponse → EnsAnswer
  decoded none = ens_error bad_answer
  decoded (some r) = registered r

  abbrev pub server_refused : HttpResponse → Option String → EnsAnswer
  server_refused r none = ens_error unreadable
  server_refused r (some b) =
      ens_error
        (server_error ("ENS server error: code=" ++ (r.status ++ (": response_body=" ++ b))))

  abbrev pub read_body : Option String → EnsAnswer
  read_body none = ens_error unreadable
  read_body (some b) = decoded (http.decode_json b)

  unfoldable pub parse_response : HttpResponse → EnsAnswer
  parse_response r = if leb 400 r.status_code then server_refused r r.body else read_body r.body

  abbrev pub on_response : Option HttpResponse → EnsAnswer
  on_response none = ens_error not_sent
  on_response (some r) = parse_response r

  unfoldable pub post_request : Client → String → String → EnsAnswer
  post_request c url body =
      if http.is_url url
      then on_response
          (http.do_request (record { url = url; headers = set_default_headers c; body = body }))
      else ens_error bad_url

  abbrev pub posted : Client → Option String → EnsAnswer
  posted c none = ens_error bad_input
  posted c (some body) = post_request c (c.endpoint ++ register_api_path) body

  -- `Register`
  unfoldable pub register_name : Client → RegisterInput → EnsAnswer
  register_name c input = posted c (http.encode_json input)
