-- ===== src/Server/Http.antt =====
-- server/src/transport/http.rs: a JSON-RPC call over HTTP, and the responses of the transport.
pub mod Answers
mod Tests
use jsonrpseex.Prelude.{
  ℕ, ◌+◌, String, Option, none, some, List, [], ◌∷◌, Bool, true, false, ◌&&◌, ◌||◌, ◌==◌, leb,
  if◌then◌else◌, codes,
}
use jsonrpseex.Types.Result.{Result, ok, err}
use jsonrpseex.Types.Ids.{RequestId}
use jsonrpseex.Types.Error
use jsonrpseex.Types.Error.{ErrorObject, ErrorCode, Json}
use jsonrpseex.Server.Runtime.{Runtime}
use jsonrpseex.Server.Response.{MethodResponse, error_json, reject_too_big_request}
use jsonrpseex.Server.Rpc.{Reader, RpcServiceT, BatchRequestConfig, handle_rpc_call}
use jsonrpseex.Server.Body.{HttpError, too_large, malformed, stream, Frame, read_body}

pub data Method : Type 0 where
  get post other : Method

-- A request, its body as the frames of a stream whose error is `E`. `content_type` and
-- `content_length` are what the headers of these names hold, if they are read as a text and as a
-- `u32`.
pub record HttpRequest (rt : Runtime) (E : Type 0) : Type 0 where
  pub method : Method
  pub path : Json
  pub query : Option Json
  pub content_type : Option Json
  pub content_length : Option ℕ
  pub frames : List (Result E Frame)
  pub extensions : rt.Ext

pub record HttpResponse (rt : Runtime) : Type 0 where
  pub status : ℕ
  pub content_type : String
  pub body : Json
  pub extensions : rt.Ext

to_lower : ℕ → ℕ
to_lower c = if leb 65 c && leb c 90 then c + 32 else c

-- `str::eq_ignore_ascii_case`
unfoldable pub eq_ignore_ascii_case : Json → Json → Bool
unfolding to_lower
eq_ignore_ascii_case [] [] = true
eq_ignore_ascii_case [] (_ ∷ _) = false
eq_ignore_ascii_case (_ ∷ _) [] = false
eq_ignore_ascii_case (a ∷ as_) (b ∷ bs) = to_lower a == to_lower b && eq_ignore_ascii_case as_ bs

is_json_text : Json → Bool
unfolding eq_ignore_ascii_case
is_json_text content =
    eq_ignore_ascii_case content (codes "application/json")
    || eq_ignore_ascii_case content (codes "application/json; charset=utf-8")
    || eq_ignore_ascii_case content (codes "application/json;charset=utf-8")
    || eq_ignore_ascii_case content (codes "application/json-rpc")
    || eq_ignore_ascii_case content (codes "application/json-rpc;charset=utf-8")
    || eq_ignore_ascii_case content (codes "application/json-rpc; charset=utf-8")

unfoldable pub is_json : Option Json → Bool
unfolding is_json_text
is_json none = false
is_json (some content) = is_json_text content

abbrev pub json_type : String
json_type = "application/json; charset=utf-8"

abbrev pub text_type : String
text_type = "text/plain"

module _ (rt : Runtime) where
  unfoldable pub from_template : ℕ → Json → String → HttpResponse rt
  from_template status body content_type = record {
    status = status;
    content_type = content_type;
    body = body;
    extensions = rt.no_ext;
  }

  unfoldable pub internal_error : HttpResponse rt
  unfolding from_template error_json Error.from_error_code
  internal_error =
      from_template 500
        (error_json rt RequestId.null (Error.from_error_code ErrorCode.internal_error)) json_type

  unfoldable pub host_not_allowed : HttpResponse rt
  unfolding from_template
  host_not_allowed =
      from_template 403 (codes "Provided Host header is not whitelisted.\n") text_type

  unfoldable pub method_not_allowed : HttpResponse rt
  unfolding from_template
  method_not_allowed =
      from_template 405 (codes "Used HTTP Method is not allowed. POST is required\n") text_type

  unfoldable pub too_large_response : ℕ → HttpResponse rt
  unfolding from_template error_json reject_too_big_request
  too_large_response limit =
      from_template 413 (error_json rt RequestId.null (reject_too_big_request rt limit)) json_type

  unfoldable pub malformed_response : HttpResponse rt
  unfolding from_template error_json Error.from_error_code
  malformed_response =
      from_template 400 (error_json rt RequestId.null (Error.from_error_code ErrorCode.parse_error))
        json_type

  unfoldable pub ok_response : Json → HttpResponse rt
  unfolding from_template
  ok_response body = from_template 200 body json_type

  unfoldable pub from_method_response : MethodResponse rt → HttpResponse rt
  unfolding from_template
  from_method_response rp = record (from_template 200 rp.json json_type) {
    extensions = rt.extend rt.no_ext rp.extensions;
  }

  unfoldable pub unsupported_content_type : HttpResponse rt
  unfolding from_template
  unsupported_content_type =
      from_template 415
        (codes "Supplied content type is not allowed. Content-Type: application/json is required\n")
        text_type

  unfoldable pub too_many_requests : HttpResponse rt
  unfolding from_template
  too_many_requests =
      from_template 429 (codes "Too many connections. Please try again later.") text_type

  unfoldable pub denied : HttpResponse rt
  unfolding from_template
  denied = from_template 403 [] text_type

  module _ {E St : Type 0} (rd : Reader rt) (service : RpcServiceT rt St)
      (config : BatchRequestConfig) (limited : ℕ → List (Result E Frame) → List (Result E Frame))
      (max_request_size : ℕ) where
    after_read : rt.Ext → Result (HttpError E) (Json × Bool) → St → HttpResponse rt × St
    unfolding handle_rpc_call from_method_response too_large_response malformed_response
        internal_error
    after_read ext (ok (body, is_single)) st =
        let (rp, st') = handle_rpc_call rt rd service body is_single config ext st in
        (from_method_response rp, st')
    after_read ext (err too_large) st = (too_large_response max_request_size, st)
    after_read ext (err malformed) st = (malformed_response, st)
    after_read ext (err (stream e)) st = (internal_error, st)

    by_method : Method → Bool → HttpRequest rt E → St → HttpResponse rt × St
    unfolding after_read read_body unsupported_content_type method_not_allowed
    by_method post true req st =
        after_read req.extensions (read_body limited req.content_length req.frames max_request_size)
          st
    by_method post false req st = (unsupported_content_type, st)
    by_method get _ req st = (method_not_allowed, st)
    by_method other _ req st = (method_not_allowed, st)

    unfoldable pub call_with_service : HttpRequest rt E → St → HttpResponse rt × St
    unfolding by_method is_json
    call_with_service req st = by_method req.method (is_json req.content_type) req st
