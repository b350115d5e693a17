-- ===== src/Client/Http.antt =====
-- client/http-client/src: the HTTP client. This file has the transport without its builder
-- (transport.rs), the RPC service over it (rpc_service.rs) and the calls of the client (client.rs).
pub mod Build
pub mod Arrival
pub mod Exchange
mod Tests
use jsonrpseex.Prelude.{
  ℕ, String, Option, none, some, List, Bool, true, false, ltb, length, if◌then◌else◌,
}
use jsonrpseex.Types.Result.{Result, ok, err, ◌>>=◌}
use jsonrpseex.Types.Ids.{RequestId}
use jsonrpseex.Types.Error.{Json}
use jsonrpseex.Client.Manager.{Range}
use jsonrpseex.Client.World.{
  RawResponse, ClientError, parse_error, transport, request_timeout, http_not_implemented,
}
use jsonrpseex.Client.Ids.{RequestIdManager, next_request_id}
use jsonrpseex.Client.Calls.{
  Request, BatchEntry, BatchResponse, prepare_batch, http_request_result, http_batch_response,
}
use jsonrpseex.Client.Subscription.{SubscriptionKind}
use jsonrpseex.Server.Body.{HttpError, Frame, read_body}

-- `Error`; the error of a stream is `E`.
pub data TransportError (E : Type 0) : Type 0 where
  url : List ℕ → TransportError E
  http : HttpError E → TransportError E
  rejected : ℕ → TransportError E
  request_too_large invalid_certificate_store : TransportError E

-- What is read of a response: its status, its length as its header has it, and its body.
pub record Response (E : Type 0) : Type 0 where
  pub status : ℕ
  pub content_length : Option ℕ
  pub frames : List (Result E Frame)

-- hyper, tower and http: a POST of a body to a target with headers, and http_body_util's limit.
pub record HttpStack : Type 1 where
  pub State : Type 0
  pub E : Type 0
  pub Headers : Type 0
  pub post : Json → Headers → Json → State → Result (TransportError E) (Response E) × State
  pub is_success : ℕ → Bool
  pub limited : ℕ → List (Result E Frame) → List (Result E Frame)

-- What serde writes and reads.
pub record Serde : Type 0 where
  pub write_request : Request → Option Json
  pub write_batch : List Request → Option Json
  pub write_notification : String → Option Json → Option Json
  pub read_response : Json → Option RawResponse
  pub read_batch : Json → Option (List RawResponse)

unfoldable pub or_parse_error : {A : Type 0} → Option A → Result ClientError A
or_parse_error none = err parse_error
or_parse_error (some a) = ok a

-- `run_future_until_timeout`: whether the timeout comes first. The state after a call is that of a
-- service that has run to its end, also if nobody waits for it any more.
unfoldable pub run_future_until_timeout :
    {A : Type 0} → Bool → Result ClientError A → Result ClientError A
run_future_until_timeout true fut = err request_timeout
run_future_until_timeout false fut = fut

unfoldable pub as_transport : {D A : Type 0} → Result D A → Result ClientError A
as_transport (ok a) = ok a
as_transport (err e) = err transport

module _ (hs : HttpStack) where
  pub record HttpTransportClient : Type 0 where
    pub target : Json
    pub max_request_size : ℕ
    pub max_response_size : ℕ
    pub headers : hs.Headers

  abbrev pub Sent : Type 0 → Type 0
  Sent A = Result (TransportError hs.E) A × hs.State

  by_status : Sent (Response hs.E) → Sent (Response hs.E)
  by_status (ok response, st) =
      (if hs.is_success response.status then ok response else err (rejected response.status), st)
  by_status (err e, st) = (err e, st)

  unfoldable pub inner_send : HttpTransportClient → Json → hs.State → Sent (Response hs.E)
  unfolding by_status
  inner_send c body st =
      if ltb c.max_request_size (length body)
      then (err request_too_large, st)
      else by_status (hs.post c.target c.headers body st)

  whole_body : Result (HttpError hs.E) (Json × Bool) → Result (TransportError hs.E) Json
  whole_body (ok (body, _)) = ok body
  whole_body (err e) = err (http e)

  unfoldable pub send_and_read_body : HttpTransportClient → Json → hs.State → Sent Json
  unfolding inner_send whole_body read_body
  send_and_read_body c body st =
      let (r, st') = inner_send c body st in
      (
        (do
          response ← r
          whole_body
              (read_body hs.limited response.content_length response.frames c.max_response_size)),
        st',
      )

  unfoldable pub send : HttpTransportClient → Json → hs.State → Sent (Unit {0})
  unfolding inner_send
  send c body st = let (r, st') = inner_send c body st in ((do response ← r; ok tt), st')

  -- `RpcService`
  module _ (serde : Serde) (c : HttpTransportClient) where
    abbrev pub Called : Type 0 → Type 0
    Called A = Result ClientError A × hs.State

    call_raw : {A : Type 0} → (Json → Option A) → Option Json → hs.State → Called A
    unfolding send_and_read_body as_transport or_parse_error
    call_raw from_slice none st = (err parse_error, st)
    call_raw from_slice (some raw) st =
        let (r, st') = send_and_read_body c raw st in
        ((do bytes ← as_transport r; or_parse_error (from_slice bytes)), st')

    unfoldable pub call : Request → hs.State → Called RawResponse
    unfolding call_raw
    call request st = call_raw serde.read_response (serde.write_request request) st

    unfoldable pub batch : List Request → hs.State → Called (List RawResponse)
    unfolding call_raw
    batch requests st = call_raw serde.read_batch (serde.write_batch requests) st

    notify_raw : Option Json → hs.State → Called (Unit {0})
    unfolding send as_transport
    notify_raw none st = (err parse_error, st)
    notify_raw (some raw) st = let (r, st') = send c raw st in (as_transport r, st')

    unfoldable pub notification : String → Option Json → hs.State → Called (Unit {0})
    unfolding notify_raw
    notification method params st = notify_raw (serde.write_notification method params) st

    -- The calls of `HttpClient`. The parameters come as what `to_rpc_params` gives, and the id
    -- manager as it is before the call. An error of the service, the timeout included, is put into
    -- the transport error if the call is a notification.
    module _ (timed_out : Bool) where
      unfoldable pub http_notification :
          String → Option (Option Json) → hs.State → Called (Unit {0})
      unfolding notification run_future_until_timeout as_transport
      http_notification method none st = (err parse_error, st)
      http_notification method (some params) st =
          let (r, st') = notification method params st in
          (as_transport (run_future_until_timeout timed_out r), st')

      unfoldable pub with_params :
          {R : Type 0}
          → (Json → Option R)
          → RequestId
          → String
          → Option (Option Json)
          → hs.State
          → Called R
      unfolding call run_future_until_timeout http_request_result
      with_params from_str id method none st = (err parse_error, st)
      with_params from_str id method (some params) st =
          let (r, st') = call (record { id = id; method = method; params = params }) st in
          ((do rp ← run_future_until_timeout timed_out r; http_request_result from_str id rp), st')

      unfoldable pub http_request :
          {R : Type 0}
          → (Json → Option R)
          → RequestIdManager
          → String
          → Option (Option Json)
          → hs.State
          → Called R
      unfolding with_params next_request_id
      http_request from_str m method params st =
          with_params from_str (next_request_id m).0 method params st

      unfoldable pub with_batch :
          {R : Type 0}
          → (Json → Option R)
          → Result ClientError (Range × List Request)
          → hs.State
          → Called (BatchResponse R)
      unfolding batch run_future_until_timeout http_batch_response
      with_batch from_str (err e) st = (err e, st)
      with_batch from_str (ok (range, requests)) st =
          let (r, st') = batch requests st in
          (
            (do
              rps ← run_future_until_timeout timed_out r
              http_batch_response from_str range.start rps),
            st',
          )

      unfoldable pub http_batch_request :
          {R : Type 0}
          → (Json → Option R)
          → RequestIdManager
          → List BatchEntry
          → hs.State
          → Called (BatchResponse R)
      unfolding with_batch prepare_batch
      http_batch_request from_str m entries st = with_batch from_str (prepare_batch m entries).0 st

      -- `subscribe` and `subscribe_to_method`
      unfoldable pub http_subscribe :
          String → Option (Option Json) → String → Result ClientError (ℕ × SubscriptionKind)
      http_subscribe subscribe_method params unsubscribe_method = err http_not_implemented

      unfoldable pub http_subscribe_to_method : String → Result ClientError (ℕ × SubscriptionKind)
      http_subscribe_to_method method = err http_not_implemented
