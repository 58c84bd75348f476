-- ===== src/Api/Response.antt =====
-- The responses of pkg/api, and the errors of internal/api/errors.go.
use Prim.Native.String.{◌++◌}
use eth_custodial.Prelude.{ℕ, String, Bool, List, Option, none, some, if◌then◌else◌}
use eth_custodial.Prelude.Int.{ℤ}
use eth_custodial.Store.Tables.{Otx}
use eth_custodial.Store.Results.{Error, Result, ok, err, no_rows}
use eth_custodial.World.{M, pure, raise, attempt, ◌>>=◌}

pub record Cookie : Type 0 where
  pub value : String
  -- when it expires; a negative `MaxAge` deletes it at once
  pub expires : Option ℕ

-- The `Result` of an `OKResponse`, by handler.
pub data Payload : Type 0 where
  tracking : String → Payload
  new_account : (public_key tracking_id : String) → Payload
  account_status : ℤ → (network_nonce internal_nonce : ℕ) → Bool → Payload
  otx_list : List Otx → Payload
  otx_page : List Otx → (first last : ℕ) → Payload
  quoted : ℤ → Payload
  system_info : (signer build : String) → Payload
  logged_in : (token : String) → Cookie → Payload
  logged_out : Cookie → Payload
  transaction_hash : String → Payload

-- `OKResponse`, always with the status 200, and `ErrResponse` with its HTTP status: the
-- description and the code.
pub data Reply : Type 0 where
  ok_response : (description : String) → Payload → Reply
  err_response : (status : ℕ) (description err_code : String) → Reply

-- `handleBindError`
abbrev pub bind_error : Reply
bind_error = err_response 400 "Invalid or malformed request" "E02"

-- `handleValidateError`
abbrev pub validate_error : Reply
validate_error = err_response 400 "Validation failed on one or more fields" "E04"

-- `handleJWTAuthError`
abbrev pub jwt_auth_error : String → Reply
jwt_auth_error reason = err_response 401 ("JWT authentication failed " ++ reason) "E06"

-- `customHTTPErrorHandler` for an error that a handler returns, and for a panic, which the
-- middleware makes an error.
abbrev pub internal_error : Reply
internal_error = err_response 500 "Internal server error" "E01"

-- `handlePostgresError`
abbrev pub handle_postgres_error : Error → M Reply
handle_postgres_error no_rows = pure (err_response 404 "Record(s) not found" "E07")
handle_postgres_error e = raise e

abbrev pub or_postgres_error : {A : Type 0} → Result A → (A → M Reply) → M Reply
or_postgres_error (ok a) k = k a
or_postgres_error (err e) k = handle_postgres_error e

-- A call whose error goes to `handlePostgresError`, and what follows it.
unfoldable pub on_postgres : {A : Type 0} → M A → (A → M Reply) → M Reply
on_postgres m k = attempt m >>= λ r. or_postgres_error r k

-- `Bind` and `Validate`; `none` is a body that does not bind.
abbrev pub with_request : {A : Type 0} → (A → Bool) → Option A → (A → M Reply) → M Reply
with_request valid none k = pure bind_error
with_request valid (some req) k = if valid req then k req else pure validate_error
