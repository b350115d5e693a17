-- ===== src/Server/Proxy.antt =====
-- server/src/middleware/http/proxy_get_request.rs: `GET /path` as a method call.
pub mod Paths
pub mod Stripped
use jsonrpseex.Prelude.{
  ℕ, Option, none, some, List, [], ◌∷◌, ◌++◌, Bool, true, false, ◌==◌, if◌then◌else◌, codes,
}
use jsonrpseex.Prelude.Map
use jsonrpseex.Prelude.Map.{Map}
use jsonrpseex.Types.Result.{Result, ok, err}
use jsonrpseex.Types.Error
use jsonrpseex.Types.Error.{ErrorObject, ErrorCode, Json}
use jsonrpseex.Server.Runtime.{Runtime}
use jsonrpseex.Server.Body.{Frame, data_}
use jsonrpseex.Server.Http.{
  Method, get, post, other, HttpRequest, HttpResponse, ok_response, from_template, json_type,
}

pub data ProxyGetRequestError : Type 0 where
  duplicated_path invalid_path : Json → ProxyGetRequestError

unfoldable pub starts_with_slash : Json → Bool
starts_with_slash [] = false
starts_with_slash (c ∷ _) = c == b'/'

module _ (dec : Discrete Json) where
  inserted :
      (Map Json Json → Result ProxyGetRequestError (Map Json Json))
      → Map Json Json
      → Json
      → Json
      → Option Json
      → Result ProxyGetRequestError (Map Json Json)
  inserted rest m path method none = rest (Map.insert dec m path method)
  inserted rest m path method (some old) = err (duplicated_path old)

  -- The loop over the pairs: `insert` gives back what it replaces.
  unfoldable pub insert_all :
      List (Json × Json) → Map Json Json → Result ProxyGetRequestError (Map Json Json)
  unfolding inserted starts_with_slash
  insert_all [] m = ok m
  insert_all ((path, method) ∷ pairs) m =
      let next = inserted (λ m'. insert_all pairs m') m path method (Map.get dec m path) in
      if starts_with_slash path then next else err (invalid_path path)

  -- `ProxyGetRequestLayer::new`
  unfoldable pub new : List (Json × Json) → Result ProxyGetRequestError (Map Json Json)
  unfolding insert_all
  new pairs = insert_all pairs Map.empty

-- What serde_json reads and writes: the request of a method with id 0 and no parameters, the result
-- and the error of a response, and an error on its own.
pub record Codec : Type 0 where
  pub write_request : Json → Json
  pub read_result : Json → Option Json
  pub read_error : Json → Option ErrorObject
  pub write_error : ErrorObject → Json

module _ (rt : Runtime) (codec : Codec) where
  -- The request that the inner service gets; the other headers stay.
  unfoldable pub proxied : {E : Type 0} → HttpRequest rt E → Json → HttpRequest rt E
  proxied req method = record req {
    method = post;
    path = codes "/";
    content_type = some (codes "application/json");
    frames = ok (data_ (codec.write_request method)) ∷ [];
  }

  or_internal : Option ErrorObject → ErrorObject
  unfolding Error.from_error_code
  or_internal none = Error.from_error_code ErrorCode.internal_error
  or_internal (some e) = e

  unfoldable pub internal_proxy_error : Json → HttpResponse rt
  unfolding or_internal from_template
  internal_proxy_error bytes =
      from_template rt 500 (codec.write_error (or_internal (codec.read_error bytes))) json_type

  stripped : Json → Option Json → HttpResponse rt
  unfolding ok_response internal_proxy_error
  stripped bytes (some result) = ok_response rt result
  stripped bytes none = internal_proxy_error bytes

  -- The response whose body holds the result only.
  unfoldable pub strip : HttpResponse rt → HttpResponse rt
  unfolding stripped
  strip rp = record (stripped rp.body (codec.read_result rp.body)) {
    extensions = rt.extend rt.no_ext rp.extensions;
  }

  module _ (dec : Discrete Json) {E St : Type 0}
      (inner : HttpRequest rt E → St → HttpResponse rt × St) where
    by_method : Method → Option Json → HttpRequest rt E → St → HttpResponse rt × St
    unfolding strip proxied
    by_method get (some method) req st =
        let (rp, st') = inner (proxied req method) st in (strip rp, st')
    by_method get none req st = inner req st
    by_method post _ req st = inner req st
    by_method other _ req st = inner req st

    -- `ProxyGetRequest::call`; the body of a response has no frame that fails.
    unfoldable pub proxy_call : Map Json Json → HttpRequest rt E → St → HttpResponse rt × St
    unfolding by_method
    proxy_call methods req st = by_method req.method (Map.get dec methods req.path) req st
