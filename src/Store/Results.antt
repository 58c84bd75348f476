-- ===== src/Store/Results.antt =====
-- Errors as values, and the results of fallible code.
use eth_custodial.Prelude.{ℕ, ◌≡◌, String, Option, none, some}

-- The sentinel errors of internal/worker/dispatch_error.go.
pub data DispatchErr : Type 0 where
  insufficient_gas gas_price_too_low nonce_too_low : DispatchErr
  replacement_tx_underpriced network : DispatchErr

pub data Error : Type 0 where
  -- answers of Postgres
  no_rows too_many_rows subquery_rows foreign_key not_null out_of_range unique : Error
  -- an outside call that fails, by the moment of the call
  unavailable : ℕ → Error
  -- library calls that refuse their argument
  bad_hex bad_private_key bad_abi_args sign_failed marshal_failed no_bytecode : Error
  bad_key_generation bad_integer bad_transaction bad_json : Error
  -- a panic of the library or of the code, which the worker's or the server's recovery catches
  panicked : Error
  -- errors of the code itself
  invalid_number_string not_dynamic_fee no_recipient no_otx_found : Error
  unknown_send_error all_nodes_failed : Error
  send_refused invalid_params : String → Error
  dispatch_error : DispatchErr → Error
  job_cancel : DispatchErr → Error

pub data Result (A : Type 0) : Type 0 where
  ok : A → Result A
  err : Error → Result A

abbrev pub or_error : {A : Type 0} → Option A → Error → Result A
or_error none e = err e
or_error (some a) e = ok a

pub ok_injective : {A : Type 0} {a b : A} → ok a ≡ ok b → a ≡ b
ok_injective h = cc

pub or_error-ok : {A : Type 0} (o : Option A) (e : Error) (a : A) → or_error o e ≡ ok a → o ≡ some a
or_error-ok none e a h = cc
or_error-ok (some x) e a h = cc
