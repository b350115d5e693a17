-- ===== src/Client/Http/Exchange.antt =====
-- The HTTP client and the HTTP transport of the server together.
use jsonrpseex.Prelude.{
  ℕ, ◌≡◌, ◌≤◌, ◌<◌, inl, inr, arith, String, Option, none, some, List, ◌∷◌, Bool, true, false,
  Bool-cases, ◌||◌, ltb, length, if◌then◌else◌, codes,
}
use jsonrpseex.Types.Result.{Result, ok, err, ◌>>=◌}
use jsonrpseex.Types.Error.{Json}
use jsonrpseex.Client.Manager.{Range}
use jsonrpseex.Client.World.{ClientError, transport}
use jsonrpseex.Client.Ids.{RequestIdManager, next_request_id}
use jsonrpseex.Client.Calls.{
  Request, BatchEntry, prepare_batch, http_request_result, http_batch_response,
}
use jsonrpseex.Server.Runtime.{Runtime}
use jsonrpseex.Server.Rpc.{Reader, RpcServiceT, BatchRequestConfig, handle_rpc_call}
use jsonrpseex.Server.Body.{Frame}
use jsonrpseex.Server.Http.{
  HttpRequest, HttpResponse, Method, call_with_service, from_method_response, too_large_response,
  from_template,
}
use jsonrpseex.Client.Http.{
  HttpStack, Response, Serde, HttpTransportClient, rejected, request_too_large, or_parse_error,
  as_transport, run_future_until_timeout, send_and_read_body, inner_send, http_request,
  http_batch_request,
}
use jsonrpseex.Client.Http.Arrival.{first_byte, Arrives, read_body-arrived, read_body-too_long}

module _ (hs : HttpStack) where
  module _ (rt : Runtime) (rd : Reader rt) (service : RpcServiceT rt hs.State)
      (config : BatchRequestConfig) (max_request_size : ℕ) (ext : rt.Ext)
      (frames : Json → List (Result hs.E Frame)) where
    -- The request that the server gets for a body.
    abbrev pub posted : Json → HttpRequest rt hs.E
    posted j = record {
      method = Method.post;
      path = codes "/";
      query = none;
      content_type = some (codes "application/json");
      content_length = some (length j);
      frames = frames j;
      extensions = ext;
    }

    abbrev pub response_of : HttpResponse rt → Response hs.E
    response_of rp = record {
      status = rp.status;
      content_length = some (length rp.body);
      frames = frames rp.body;
    }

    -- A client whose requests reach the server and whose responses come from it.
    pub record Linked (c : HttpTransportClient hs) : Type 0 where
      pub arrives : Arrives hs frames
      pub posts :
          (j : Json) (st : hs.State)
          → let (rp, st') =
              call_with_service rt rd service config hs.limited max_request_size (posted j) st in
            hs.post c.target c.headers j st ≡ (ok (response_of rp), st')
      pub succeeds : hs.is_success 200 ≡ true
      pub too_large_fails : hs.is_success 413 ≡ false

    -- What handling the body gives, if the sizes allow it; an error of a size is one of the
    -- transport, and the server's state has changed if only the response is too long.
    unfoldable pub exchange :
        {A : Type 0}
        → HttpTransportClient hs
        → Json
        → Bool
        → (Json → Result ClientError A)
        → hs.State
        → Result ClientError A × hs.State
    exchange c raw single read st =
        if ltb c.max_request_size (length raw) || ltb max_request_size (length raw)
        then (err transport, st)
        else let (rp, st') = handle_rpc_call rt rd service raw single config ext st in
          ((if ltb c.max_response_size (length rp.json) then err transport else read rp.json), st')

    module _ (c : HttpTransportClient hs) (l : Linked c) where
      call_with_service_handles :
          (raw : Json) (single : Bool) (st : hs.State)
          → length (first_byte single ∷ raw) ≤ max_request_size
          → let body = first_byte single ∷ raw in
            let (rp, st') = handle_rpc_call rt rd service body single config ext st in
            call_with_service rt rd service config hs.limited max_request_size (posted body) st
            ≡ (from_method_response rt rp, st')
      unfolding call_with_service
      call_with_service_handles raw single st h =
          let r = read_body-arrived hs frames max_request_size single raw l.arrives h in rw r

      call_with_service_refuses :
          (raw : Json) (st : hs.State)
          → max_request_size < length raw
          → call_with_service rt rd service config hs.limited max_request_size (posted raw) st
            ≡ (too_large_response rt max_request_size, st)
      unfolding call_with_service
      call_with_service_refuses raw st h =
          let r = read_body-too_long hs (length raw) max_request_size (frames raw) h in rw r

      send_and_read_body_too_long :
          (body : Json) (st : hs.State)
          → c.max_request_size < length body
          → send_and_read_body hs c body st ≡ (err request_too_large, st)
      unfolding send_and_read_body
      send_and_read_body_too_long body st h = ground (arith, h)

      send_and_read_body_rejected :
          (body : Json) (st : hs.State)
          → length body ≤ c.max_request_size
          → max_request_size < length body
          → send_and_read_body hs c body st ≡ (err (rejected 413), st)
      unfolding send_and_read_body too_large_response from_template
      send_and_read_body_rejected body st h k =
          ground (arith, h, l.posts body st, call_with_service_refuses body st k, l.too_large_fails)

      inner_send_handled :
          (raw : Json) (single : Bool) (st : hs.State)
          → length (first_byte single ∷ raw) ≤ c.max_request_size
          → length (first_byte single ∷ raw) ≤ max_request_size
          → let body = first_byte single ∷ raw in
            let (rp, st') = handle_rpc_call rt rd service body single config ext st in
            inner_send hs c body st ≡ (ok (response_of (from_method_response rt rp)), st')
      unfolding inner_send from_method_response from_template
      inner_send_handled raw single st h k = ground (
        arith,
        h,
        l.posts (first_byte single ∷ raw) st,
        call_with_service_handles raw single st k,
        l.succeeds,
      )

      -- The reply to a body begins like a response or a batch of responses.
      abbrev pub Replies : Json → Bool → hs.State → Type 0
      Replies body single st =
          (reply : Bool) × (j : Json) × ((handle_rpc_call rt rd service body single config ext
              st).0.json
            ≡ first_byte reply ∷ j)

      read_reply :
          (raw : Json) (single : Bool) (st : hs.State)
          → length (first_byte single ∷ raw) ≤ c.max_request_size
          → length (first_byte single ∷ raw) ≤ max_request_size
          → Replies (first_byte single ∷ raw) single st
          → let body = first_byte single ∷ raw in
            let (r, st') = send_and_read_body hs c body st in
            (as_transport r, st') ≡ exchange c body single (λ j. ok j) st
      unfolding send_and_read_body exchange from_method_response from_template as_transport
      read_reply raw single st h k (reply, j, e) =
          let body = first_byte single ∷ raw in
          let json = first_byte reply ∷ j in
          let i = inner_send_handled raw single st h k in
          elim (Bool-cases (ltb c.max_response_size (length json))) [
            | inl t ↦
                let f =
                  read_body-too_long hs (length json) c.max_response_size (frames json)
                    (ground (arith, t)) in
                ground (arith, h, k, i, e, t, f)
            | inr t ↦
                let f =
                  read_body-arrived hs frames c.max_response_size reply j l.arrives
                    (ground (arith, t)) in
                ground (arith, h, k, i, e, t, f)
          ]

      send_and_read_body-exchange :
          (raw : Json) (single : Bool) (st : hs.State)
          → Replies (first_byte single ∷ raw) single st
          → let body = first_byte single ∷ raw in
            let (r, st') = send_and_read_body hs c body st in
            (as_transport r, st') ≡ exchange c body single (λ j. ok j) st
      unfolding exchange as_transport
      send_and_read_body-exchange raw single st p =
          let body = first_byte single ∷ raw in
          elim (Bool-cases (ltb c.max_request_size (length body))) [
            | inl t ↦ ground (arith, t, send_and_read_body_too_long body st (ground (arith, t)))
            | inr t ↦ elim (Bool-cases (ltb max_request_size (length body))) [
              | inl u ↦ ground (
                arith,
                t,
                u,
                send_and_read_body_rejected body st (ground (arith, t)) (ground (arith, u)),
              )
              | inr u ↦ read_reply raw single st (ground (arith, t)) (ground (arith, u)) p
            ]
          ]

      exchange-bind :
          {A B : Type 0} (raw : Json) (single : Bool) (f : A → Result ClientError B)
          (g : Json → Result ClientError A) (st : hs.State)
          → let (r, st') = exchange c raw single g st in
            ((do a ← r; f a), st') ≡ exchange c raw single (λ j. do a ← g j; f a) st
      unfolding exchange
      exchange-bind raw single f g st = ground arith

      module _ (serde : Serde) {R : Type 0} (from_str : Json → Option R)
          (m : RequestIdManager) where
        -- The client against the server: if no timeout comes first, a request comes to what handling
        -- its text on the server gives, read as a response to its id, and a batch to what handling
        -- its text gives, read as responses to its range; a text that is too long for the client or
        -- the server is an error of the transport and changes nothing, and a response that is too
        -- long is an error of the transport after the server has handled the text.
        pub http_calls-exchange :
            (method : String) (params : Option Json) (entries : List BatchEntry) (range : Range)
            (requests : List Request) (raw raw' : Json) (st : hs.State)
            → let id = (next_request_id m).0 in
              serde.write_request (record { id = id; method = method; params = params })
                ≡ some (b'{' ∷ raw)
              → (prepare_batch m entries).0 ≡ ok (range, requests)
              → serde.write_batch requests ≡ some (b'[' ∷ raw')
              → Replies (b'{' ∷ raw) true st
              → Replies (b'[' ∷ raw') false st
              → (http_request hs serde c false from_str m method (some params) st
                  ≡ exchange c
                      (b'{' ∷ raw)
                      true
                      (λ j. do
                        rp ← or_parse_error (serde.read_response j)
                        http_request_result from_str (next_request_id m).0 rp)
                      st)
                × (http_batch_request hs serde c false from_str m entries st
                    ≡ exchange c
                        (b'[' ∷ raw')
                        false
                        (λ j. do
                          rps ← or_parse_error (serde.read_batch j)
                          http_batch_response from_str range.start rps)
                        st)
        unfolding http_request http_batch_request run_future_until_timeout
        http_calls-exchange method params entries range requests raw raw' st w p w' rep rep' = (
          ground (
            arith,
            w,
            send_and_read_body-exchange raw true st rep,
            exchange-bind (b'{' ∷ raw) true
                (λ j. do
                  rp ← or_parse_error (serde.read_response j)
                  http_request_result from_str (next_request_id m).0 rp)
                (λ j. ok j) st,
          ),
          ground (
            arith,
            p,
            w',
            send_and_read_body-exchange raw' false st rep',
            exchange-bind (b'[' ∷ raw') false
                (λ j. do
                  rps ← or_parse_error (serde.read_batch j)
                  http_batch_response from_str range.start rps)
                (λ j. ok j) st,
          ),
        )
