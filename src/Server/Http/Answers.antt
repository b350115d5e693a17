-- ===== src/Server/Http/Answers.antt =====
-- What an HTTP request is answered.
use jsonrpseex.Prelude.{◌≡◌, ◌≢◌, ◌⊎◌, inl, inr, refl, ℕ, List, true, false, Bool, Bool-cases}
use jsonrpseex.Types.Error.{Json}
use jsonrpseex.Types.Result.{Result, ok, err, Result-cases}
use jsonrpseex.Server.Runtime.{Runtime}
use jsonrpseex.Server.Rpc.{Reader, RpcServiceT, BatchRequestConfig, handle_rpc_call}
use jsonrpseex.Server.Body.{Frame, HttpError, too_large, malformed, stream, read_body}
use jsonrpseex.Server.Http.{
  HttpRequest, Method, get, post, other, is_json, call_with_service, from_method_response,
  too_large_response, malformed_response, internal_error, unsupported_content_type,
  method_not_allowed, from_template,
}

module _ (rt : Runtime) {E St : Type 0} (rd : Reader rt) (service : RpcServiceT rt St)
    (config : BatchRequestConfig) (limited : ℕ → List (Result E Frame) → List (Result E Frame))
    (max_request_size : ℕ) where
  -- The body was read and handled.
  abbrev pub Handled : HttpRequest rt E → St → Type 0
  Handled req st =
      (body : Json) × (single : Bool) × (req.method ≡ post)
      × (is_json req.content_type ≡ true)
      × (read_body limited req.content_length req.frames max_request_size ≡ ok (body, single))
      × (let (rp, after) = handle_rpc_call rt rd service body single config req.extensions st in
          let (r, st') = call_with_service rt rd service config limited max_request_size req st in
          (r.status ≡ 200) × (r.body ≡ rp.json) × (st' ≡ after))

  -- The status for the error of reading the body.
  abbrev pub status_of : HttpError E → ℕ
  status_of too_large = 413
  status_of malformed = 400
  status_of (stream e) = 500

  -- The request was not handled: what is wrong with it, and the status that tells it.
  abbrev pub Refused : HttpRequest rt E → St → Type 0
  Refused req st =
      let (r, st') = call_with_service rt rd service config limited max_request_size req st in
      (st' ≡ st)
      × ((req.method ≢ post) × (r.status ≡ 405)
          ⊎ ((req.method ≡ post) × (is_json req.content_type ≡ false) × (r.status ≡ 415))
          ⊎ ((e : HttpError E) × (req.method ≡ post)
              × (is_json req.content_type ≡ true)
              × (read_body limited req.content_length req.frames max_request_size ≡ err e)
              × (r.status ≡ status_of e)))

  read_error :
      (req : HttpRequest rt E) (st : St) (e : HttpError E)
      → req.method ≡ post
      → is_json req.content_type ≡ true
      → read_body limited req.content_length req.frames max_request_size ≡ err e
      → Refused req st
  unfolding call_with_service too_large_response malformed_response internal_error from_template
  read_error req st too_large m j f = (rw (m, j, f), inr (inr (too_large, m, j, f, rw (m, j, f))))
  read_error req st malformed m j f = (rw (m, j, f), inr (inr (malformed, m, j, f, rw (m, j, f))))
  read_error req st (stream e) m j f = (rw (m, j, f), inr (inr (stream e, m, j, f, rw (m, j, f))))

  not_post :
      (req : HttpRequest rt E) (st : St)
      → (req.method ≡ get) ⊎ (req.method ≡ other)
      → Refused req st
  unfolding call_with_service method_not_allowed from_template
  not_post req st (inl m) = (rw m, inl (λ p. cc (m, p), rw m))
  not_post req st (inr m) = (rw m, inl (λ p. cc (m, p), rw m))

  posted : (req : HttpRequest rt E) (st : St) → req.method ≡ post → Handled req st ⊎ Refused req st
  unfolding call_with_service unsupported_content_type from_template from_method_response
  posted req st m = elim (Bool-cases (is_json req.content_type)) [
    | inr j ↦ inr (rw (m, j), inr (inl (m, j, rw (m, j))))
    | inl j ↦
        elim (Result-cases (read_body limited req.content_length req.frames max_request_size)) [
          | inl ((body, single), f) ↦
              inl (body, single, m, j, f, (rw (m, j, f), rw (m, j, f), rw (m, j, f)))
          | inr (e, f) ↦ inr (read_error req st e m j f)
        ]
  ]

  Method-cases : (m : Method) → (m ≡ post) ⊎ ((m ≡ get) ⊎ (m ≡ other))
  Method-cases post = inl refl
  Method-cases get = inr (inl refl)
  Method-cases other = inr (inr refl)

  -- A request is answered with status 200 exactly if it is a POST with a JSON type, as `is_json`
  -- takes it, whose body can be read; then the body of the answer and the new state are those of
  -- `handle_rpc_call`. Else nothing has changed, and the status is 405 for another method, 415 for
  -- another type, 413 for a body that is too large, 400 for one that is no JSON, and 500 if its
  -- stream fails.
  pub call_with_service_lem : (req : HttpRequest rt E) (st : St) → Handled req st ⊎ Refused req st
  call_with_service_lem req st = elim (Method-cases req.method) [
    | inl m ↦ posted req st m
    | inr m ↦ inr (not_post req st m)
  ]
