-- ===== src/Server/Proxy/Stripped.antt =====
-- A proxied request through the HTTP transport.
use jsonrpseex.Prelude.{ap, ◌∙◌, ◌≡◌, refl, arith, ℕ, none, some, List, [], ◌∷◌, true, false, ltb}
use jsonrpseex.Prelude.Map
use jsonrpseex.Prelude.Map.{Map}
use jsonrpseex.Types.Result.{Result, ok}
use jsonrpseex.Types.Error
use jsonrpseex.Types.Error.{Json, ErrorCode}
use jsonrpseex.Server.Runtime.{Runtime}
use jsonrpseex.Server.Rpc.{Reader, RpcServiceT, BatchRequestConfig, handle_rpc_call}
use jsonrpseex.Server.Body.{Frame, data_, read_body}
use jsonrpseex.Server.Http.{
  HttpRequest, HttpResponse, get, is_json, call_with_service, from_method_response, ok_response,
  from_template,
}
use jsonrpseex.Server.Proxy.{Codec, strip, internal_proxy_error, proxied, proxy_call}

never : (n : ℕ) → ltb n 0 ≡ false
never n = ground arith

module _ (rt : Runtime) (codec : Codec) (dec : Discrete Json) {E St : Type 0} (rd : Reader rt)
    (service : RpcServiceT rt St) (config : BatchRequestConfig)
    (limited : ℕ → List (Result E Frame) → List (Result E Frame)) (max_request_size : ℕ) where
  body_read :
      (text rest : Json) (frames : List (Result E Frame))
      → text ≡ b'{' ∷ rest
      → frames ≡ ok (data_ text) ∷ []
      → limited max_request_size frames ≡ frames
      → read_body limited none frames max_request_size ≡ ok (text, true)
  unfolding read_body
  body_read text rest frames e f l = rw (l, f, e, never max_request_size)

  -- The status and the body that are shown for the text of a response: the result in it, or else the
  -- error in it, or the internal error if there is none either.
  unfoldable pub shown : Json → ℕ × Json
  unfolding Error.from_error_code
  shown json = elim (codec.read_result json) [
    | some result ↦ (200, result)
    | none ↦ elim (codec.read_error json) [
      | some e ↦ (500, codec.write_error e)
      | none ↦ (500, codec.write_error (Error.from_error_code ErrorCode.internal_error))
    ]
  ]

  strip-shown :
      (rp : HttpResponse rt)
      → ((strip rt codec rp).status ≡ (shown rp.body).0)
        × ((strip rt codec rp).body ≡ (shown rp.body).1)
  unfolding strip shown ok_response internal_proxy_error from_template
  strip-shown rp = (ground arith, ground arith)

  handled_call :
      (methods : Map Json Json) (req : HttpRequest rt E) (st : St) (method rest : Json)
      → req.method ≡ get
      → Map.get dec methods req.path ≡ some method
      → req.content_length ≡ none
      → codec.write_request method ≡ b'{' ∷ rest
      → limited max_request_size (ok (data_ (codec.write_request method)) ∷ [])
        ≡ ok (data_ (codec.write_request method)) ∷ []
      → let (rp, st') =
          handle_rpc_call rt rd service
            (codec.write_request method)
            true
            config
            req.extensions
            st in
        proxy_call rt codec dec
          (call_with_service rt rd service config limited max_request_size)
          methods
          req
          st
        ≡ (strip rt codec (from_method_response rt rp), st')
  unfolding proxy_call proxied call_with_service is_json
  handled_call methods req st method rest m g c w l =
      let r =
        body_read (codec.write_request method) rest (ok (data_ (codec.write_request method)) ∷ []) w
          refl l in
      rw (m, g, c, r)

  -- A `GET` of a registered path without a content length, whose method call fits into the limit on
  -- the body, is handled as a call of the method: the state is the one after `handle_rpc_call` on the
  -- text of the call, and the answer has status 200 and the result alone if the response has one,
  -- and else status 500 and the error alone.
  pub proxy_call-call_with_service :
      (methods : Map Json Json) (req : HttpRequest rt E) (st : St) (method rest : Json)
      → req.method ≡ get
      → Map.get dec methods req.path ≡ some method
      → req.content_length ≡ none
      → codec.write_request method ≡ b'{' ∷ rest
      → limited max_request_size (ok (data_ (codec.write_request method)) ∷ [])
        ≡ ok (data_ (codec.write_request method)) ∷ []
      → let (rp, st') =
          handle_rpc_call rt rd service
            (codec.write_request method)
            true
            config
            req.extensions
            st in
        let (r, after) =
          proxy_call rt codec dec
            (call_with_service rt rd service config limited max_request_size)
            methods
            req
            st in
        (after ≡ st') × (r.status ≡ (shown rp.json).0) × (r.body ≡ (shown rp.json).1)
  unfolding from_method_response from_template
  proxy_call-call_with_service methods req st method rest m g c w l =
      let rp =
        (handle_rpc_call rt rd service (codec.write_request method) true config req.extensions
          st).0 in
      let e = handled_call methods req st method rest m g c w l in
      let (a, b) = strip-shown (from_method_response rt rp) in
      (ap (λ x. x.1) e, ap (λ x. x.0.status) e ∙ a, ap (λ x. x.0.body) e ∙ b)
