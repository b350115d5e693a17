-- ===== src/Server/Response.antt =====
-- core/src/server/method_response.rs: the response of a method call, and the bounded writer.
pub mod Kind
pub mod Bounded
pub mod Batch
use Prim.Native.String.{◌++◌ as text_append}
use jsonrpseex.Prelude.{
  ℕ, ◌+◌, String, Option, none, some, List, [], ◌∷◌, ◌++◌, Bool, true, false, leb, length,
  if◌then◌else◌,
}
use jsonrpseex.Prelude.Decimal
use jsonrpseex.Prelude.Int.{ℤ}
use jsonrpseex.Types.Result.{Result, ok, err}
use jsonrpseex.Types.Ids.{RequestId}
use jsonrpseex.Types.Error
use jsonrpseex.Types.Error.{ErrorObject, ErrorCode, Json}
use jsonrpseex.Types.Response
use jsonrpseex.Types.Response.{Response, ResponsePayload}
use jsonrpseex.Server.Response.Kind.{ResponseKind, MethodResponseResult, failed}
use jsonrpseex.Server.Runtime.{Runtime, Written}

unfoldable pub as_error_code : MethodResponseResult → Option ℤ
as_error_code MethodResponseResult.success = none
as_error_code (failed c) = some c

-- `BoundedWriter`: at most `max_len` bytes are written.
pub record BoundedWriter : Type 0 where
  pub max_len : ℕ
  pub buf : Json

pub data WriteError : Type 0 where
  io data_ : WriteError

abbrev pub new_writer : ℕ → BoundedWriter
new_writer max_len = record { max_len = max_len; buf = [] }

-- `io::Write::write`
unfoldable pub write : BoundedWriter → Json → Option BoundedWriter
write w piece =
    if leb (length w.buf + length piece) w.max_len
    then some (record w { buf = w.buf ++ piece })
    else none

-- `serde_json::to_writer`: the pieces are written until the writer fails.
unfoldable pub to_writer : BoundedWriter → List Json → Bool → Result WriteError BoundedWriter
unfolding write
to_writer w [] complete = if complete then ok w else err data_
to_writer w (piece ∷ rest) complete = elim (write w piece) [
  | none ↦ err io
  | some w' ↦ to_writer w' rest complete
]

-- `format!("Exceeded max limit of {limit}")`
unfoldable pub exceeded : ℕ → String
exceeded limit = text_append "Exceeded max limit of " (Decimal.show limit)

module _ (rt : Runtime) where
  pub record MethodResponse : Type 0 where
    pub json : Json
    pub success_or_error : MethodResponseResult
    pub kind : ResponseKind
    pub on_close : Option rt.NotifyTx
    pub extensions : rt.Ext

  abbrev pub with_extensions : MethodResponse → rt.Ext → MethodResponse
  with_extensions r e = record r { extensions = e }

  -- `Response::new` of an error, as text.
  unfoldable pub error_json : RequestId → ErrorObject → Json
  unfolding Response.new
  error_json id e = rt.write_error (Response.new (ResponsePayload.error e) id)

  -- `MethodResponse::error`
  unfoldable pub error : RequestId → ErrorObject → MethodResponse
  unfolding error_json
  error id e = record {
    json = error_json id e;
    success_or_error = failed (Error.error_code e);
    kind = ResponseKind.method_call;
    on_close = none;
    extensions = rt.no_ext;
  }

  -- `MethodResponse::subscription_error`
  unfoldable pub subscription_error : RequestId → ErrorObject → MethodResponse
  unfolding error
  subscription_error id e = record (error id e) { kind = ResponseKind.subscription }

  -- `MethodResponse::notification`
  unfoldable pub notification : MethodResponse
  notification = record {
    json = rt.null_json;
    success_or_error = MethodResponseResult.success;
    kind = ResponseKind.notification;
    on_close = none;
    extensions = rt.no_ext;
  }

  unfoldable pub reject : ℤ → String → ℕ → ErrorObject
  unfolding Error.new exceeded
  reject code message limit = Error.new code message (rt.write_text (exceeded limit))

  -- types/src/error.rs
  unfoldable pub reject_too_many_subscriptions : ℕ → ErrorObject
  unfolding reject
  reject_too_many_subscriptions =
      reject Error.too_many_subscriptions_code "Too many subscriptions on the connection"

  unfoldable pub reject_too_big_request : ℕ → ErrorObject
  unfolding reject
  reject_too_big_request = reject Error.oversized_request_code "Request is too big"

  unfoldable pub reject_too_big_batch_request : ℕ → ErrorObject
  unfolding reject
  reject_too_big_batch_request =
      reject Error.too_big_batch_request_code "The batch request was too large"

  unfoldable pub reject_too_big_batch_response : ℕ → ErrorObject
  unfolding reject
  reject_too_big_batch_response =
      reject Error.too_big_batch_response_code "The batch response was too large"

  -- The server's `ResponsePayload`.
  pub record Payload (T : Type 0) : Type 0 where
    pub inner : ResponsePayload T
    pub on_exit : Option rt.NotifyTx

  unfoldable pub result_of : {T : Type 0} → ResponsePayload T → MethodResponseResult
  result_of (ResponsePayload.error e) = failed (Error.error_code e)
  result_of (ResponsePayload.success t) = MethodResponseResult.success

  abbrev finished : Json → MethodResponseResult → Option rt.NotifyTx → MethodResponse
  finished json r on_exit = record {
    json = json;
    success_or_error = r;
    kind = ResponseKind.method_call;
    on_close = on_exit;
    extensions = rt.no_ext;
  }

  -- The match on what serde_json returns.
  after_write :
      RequestId
      → MethodResponseResult
      → Option rt.NotifyTx
      → ℕ
      → Result WriteError BoundedWriter
      → MethodResponse
  unfolding reject error_json Error.from_error_code
  after_write id r on_exit max (ok w) = finished w.buf r on_exit
  after_write id r on_exit max (err io) =
      finished (error_json id (reject Error.oversized_response_code "Response is too big" max))
        (failed Error.oversized_response_code) on_exit
  after_write id r on_exit max (err data_) =
      finished (error_json id (Error.from_error_code ErrorCode.internal_error))
        (failed (Error.code ErrorCode.internal_error)) on_exit

  -- `MethodResponse::response`, given how serde_json writes a response.
  unfoldable pub response :
      {T : Type 0} → (Response T → Written) → RequestId → Payload T → ℕ → MethodResponse
  unfolding after_write result_of to_writer Response.new
  response write_response id rp max =
      let written = write_response (Response.new rp.inner id) in
      after_write id (result_of rp.inner) rp.on_exit max
        (to_writer (new_writer max) written.pieces written.complete)

  -- `MethodResponse::subscription_response`
  unfoldable pub subscription_response :
      {T : Type 0} → (Response T → Written) → RequestId → Payload T → ℕ → MethodResponse
  unfolding response
  subscription_response write_response id rp max = record (response write_response id rp max) {
    kind = ResponseKind.subscription;
  }
