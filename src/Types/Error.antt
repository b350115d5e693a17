-- ===== src/Types/Error.antt =====
-- types/src/error.rs: error codes and error objects.
pub mod Codes
use jsonrpseex.Prelude.{String, List, ℕ, Option, none, ite}
use jsonrpseex.Prelude.Int.{ℤ, ℤ-discrete, neg}

-- The constants `PARSE_ERROR_CODE` to `DECRYPTION_ERROR_CODE`.
abbrev pub parse_error_code : ℤ
parse_error_code = neg 32700

abbrev pub invalid_request_code : ℤ
invalid_request_code = neg 32600

abbrev pub method_not_found_code : ℤ
method_not_found_code = neg 32601

abbrev pub invalid_params_code : ℤ
invalid_params_code = neg 32602

abbrev pub internal_error_code : ℤ
internal_error_code = neg 32603

abbrev pub batches_not_supported_code : ℤ
batches_not_supported_code = neg 32005

abbrev pub too_many_subscriptions_code : ℤ
too_many_subscriptions_code = neg 32006

abbrev pub oversized_request_code : ℤ
oversized_request_code = neg 32007

abbrev pub oversized_response_code : ℤ
oversized_response_code = neg 32008

abbrev pub server_is_busy_code : ℤ
server_is_busy_code = neg 32009

abbrev pub too_big_batch_request_code : ℤ
too_big_batch_request_code = neg 32010

abbrev pub too_big_batch_response_code : ℤ
too_big_batch_response_code = neg 32011

pub data ErrorCode : Type 0 where
  parse_error oversized_request invalid_request method_not_found server_is_busy : ErrorCode
  invalid_params internal_error : ErrorCode
  server_error : ℤ → ErrorCode

-- `ErrorCode::code`
unfoldable pub code : ErrorCode → ℤ
code parse_error = parse_error_code
code oversized_request = oversized_request_code
code invalid_request = invalid_request_code
code method_not_found = method_not_found_code
code server_is_busy = server_is_busy_code
code invalid_params = invalid_params_code
code internal_error = internal_error_code
code (server_error c) = c

-- `ErrorCode::message`
unfoldable pub message : ErrorCode → String
message parse_error = "Parse error"
message oversized_request = "Request is too big"
message invalid_request = "Invalid request"
message method_not_found = "Method not found"
message server_is_busy = "Server is busy, try again later"
message invalid_params = "Invalid params"
message internal_error = "Internal error"
message (server_error c) = "Server error"

-- `From<i32>`, in the order of the match.
unfoldable pub from_code : ℤ → ErrorCode
unfolding ℤ-discrete
from_code c = ite (ℤ-discrete c parse_error_code) parse_error (
    ite (ℤ-discrete c oversized_request_code) oversized_request (
      ite (ℤ-discrete c invalid_request_code) invalid_request (
        ite (ℤ-discrete c method_not_found_code) method_not_found (
          ite (ℤ-discrete c invalid_params_code) invalid_params
            (ite (ℤ-discrete c internal_error_code) internal_error (server_error c))))))

-- The raw text of JSON data, as bytes.
abbrev pub Json : Type 0
Json = List ℕ

pub record ErrorObject : Type 0 where
  pub code : ErrorCode
  pub message : String
  pub data_ : Option Json

-- `From<ErrorCode>`
unfoldable pub from_error_code : ErrorCode → ErrorObject
unfolding message
from_error_code c = record { code = c; message = message c; data_ = none }

-- `ErrorObject::borrowed`; `ErrorObject::owned` once its data is serialized.
unfoldable pub new : ℤ → String → Option Json → ErrorObject
unfolding from_code
new c m d = record { code = from_code c; message = m; data_ = d }

-- `ErrorObject::code`
abbrev pub error_code : ErrorObject → ℤ
error_code e = code e.code
