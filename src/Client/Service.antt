-- ===== src/Client/Service.antt =====
-- core/src/client/async_client/rpc_service.rs: `RpcService`, which hands the requests of the client
-- to the background task. The child Calls has the calls of the client over it.
pub mod Calls
pub mod Disconnected
mod Tests
use jsonrpseex.Prelude.{ℕ, String, Option, none, some, List, Bool, true, false, if◌then◌else◌}
use jsonrpseex.Types.Result.{Result, ok, err, ◌>>=◌}
use jsonrpseex.Types.Ids.{RequestId, SubscriptionId, InvalidRequestId}
use jsonrpseex.Types.Error.{Json}
use jsonrpseex.Types.Response
use jsonrpseex.Types.Response.{ResponsePayload}
use jsonrpseex.Client.Manager.{Range}
use jsonrpseex.Client.World.{
  Runtime, RawResponse, ClientError, Outcome, done, fails, panics, restart_needed, custom,
  request_timeout, service_disconnect, parse_error, invalid_request_id,
}
use jsonrpseex.Client.Frontend
use jsonrpseex.Client.Frontend.{FrontToBack}
use jsonrpseex.Client.Ids.{RequestIdManager, next_request_id}
use jsonrpseex.Client.Calls.{
  Request, BatchEntry, BatchResponse, prepare_batch, collect, no_responses, request_result,
  subscribe_ids,
}
use jsonrpseex.Client.Subscription.{SubscriptionKind, subscription, method}

-- A message to the background task and the value of its oneshot channel: the message could not be
-- sent, the other half was dropped, or there is a value.
pub data Awaited (A : Type 0) : Type 0 where
  not_sent dropped : Awaited A
  replied : A → Awaited A

-- The background task, as the service sees it, with serde's writers of requests, batches,
-- notifications and subscription ids.
pub record Background (rt : Runtime) : Type 1 where
  pub State : Type 0
  pub ask_call :
      (rt.Oneshot → FrontToBack rt) → State → Awaited (Result InvalidRequestId RawResponse) × State
  pub ask_batch :
      (rt.Oneshot → FrontToBack rt)
      → State
      → Awaited (Result InvalidRequestId (List RawResponse)) × State
  pub ask_subscribe :
      (rt.Oneshot → FrontToBack rt)
      → State
      → Awaited (Result ClientError (ℕ × SubscriptionId)) × State
  pub ask_register :
      (rt.Oneshot → FrontToBack rt) → State → Awaited (Result ClientError (ℕ × String)) × State
  pub tell : FrontToBack rt → State → Bool × State
  pub write_request : Request → Option Json
  pub write_batch : List Request → Option Json
  pub write_notification : String → Option Json → Option Json
  pub write_sub_id : SubscriptionId → Option Json

-- core/src/middleware: the extension of a request that is a subscription.
pub record IsSubscription : Type 0 where
  pub sub_req_id : RequestId
  pub unsub_req_id : RequestId
  pub unsubscribe_method : String

-- `MiddlewareMethodResponse`, less its extensions; a stream is the number of its channel.
pub record MiddlewareMethodResponse : Type 0 where
  pub rp : RawResponse
  pub subscription : Option (ℕ × SubscriptionId)

-- `From<RecvError>` and `From<SendError>`
unfoldable pub awaited : {A : Type 0} → Awaited A → Result ClientError A
awaited not_sent = err service_disconnect
awaited dropped = err service_disconnect
awaited (replied a) = ok a

unfoldable pub with_invalid_id : {A : Type 0} → Result InvalidRequestId A → Result ClientError A
with_invalid_id (ok a) = ok a
with_invalid_id (err e) = err (invalid_request_id e)

or_parse_error : Option Json → Result ClientError Json
or_parse_error none = err parse_error
or_parse_error (some j) = ok j

-- `read_error`, which waits until the background task is gone.
unfoldable pub read_error : Option ClientError → ClientError
read_error (some e) = restart_needed e
read_error none = custom "Error reason could not be found. This is a bug. Please open an issue."

module _ (rt : Runtime) (back : Background rt) where
  abbrev Call : Type 0 → Type 0
  Call A = Result ClientError A × back.State

  method_response :
      Awaited (Result InvalidRequestId RawResponse) → Result ClientError MiddlewareMethodResponse
  unfolding awaited with_invalid_id
  method_response a = do
    reply ← awaited a
    rp ← with_invalid_id reply
    ok (record { rp = rp; subscription = none })

  subscribed :
      RequestId
      → Awaited (Result ClientError (ℕ × SubscriptionId))
      → Result ClientError MiddlewareMethodResponse
  unfolding awaited or_parse_error Response.new
  subscribed id a = do
    reply ← awaited a
    (subscribe_rx, sub_id) ← reply
    rp ← or_parse_error (back.write_sub_id sub_id)
    ok (record {
      rp = Response.new (ResponsePayload.success rp) id;
      subscription = some (subscribe_rx, sub_id);
    })

  call_message :
      Request → Option IsSubscription → Option Json → back.State → Call MiddlewareMethodResponse
  unfolding subscribed method_response
  call_message req ext none st = (err parse_error, st)
  call_message req (some sub) (some raw) st =
      let (a, st') =
        back.ask_subscribe
          (λ o. FrontToBack.subscribe (record {
            raw = raw;
            subscribe_id = sub.sub_req_id;
            unsubscribe_id = sub.unsub_req_id;
            unsubscribe_method = sub.unsubscribe_method;
            send_back = o;
          }))
          st in
      (subscribed req.id a, st')
  call_message req none (some raw) st =
      let (a, st') =
        back.ask_call
          (λ o. FrontToBack.request (record { raw = raw; id = req.id; send_back = some o })) st in
      (method_response a, st')

  -- `RpcService::call`, with the `IsSubscription` of the request's extensions.
  unfoldable pub call : Request → Option IsSubscription → back.State → Call MiddlewareMethodResponse
  unfolding call_message
  call req ext st = call_message req ext (back.write_request req) st

  batch_reply : Awaited (Result InvalidRequestId (List RawResponse)) → Outcome (List RawResponse)
  batch_reply (replied (ok rps)) = done rps
  batch_reply (replied (err e)) = fails (invalid_request_id e)
  batch_reply not_sent = fails service_disconnect
  batch_reply dropped = fails service_disconnect

  batch_message : Option Range → Option Json → back.State → Outcome (List RawResponse) × back.State
  unfolding batch_reply
  batch_message ids none st = (fails parse_error, st)
  batch_message none (some raw) st = (panics, st)
  batch_message (some ids) (some raw) st =
      let (a, st') = back.ask_batch (λ o. FrontToBack.batch raw ids o) st in (batch_reply a, st')

  -- `RpcService::batch`, with the range of `IsBatch` in the batch's extensions.
  unfoldable pub batch :
      List Request → Option Range → back.State → Outcome (List RawResponse) × back.State
  unfolding batch_message
  batch reqs ids st = batch_message ids (back.write_batch reqs) st

  notification_message : Option Json → back.State → Call (Unit {0})
  notification_message none st = (err parse_error, st)
  notification_message (some raw) st =
      let (sent, st') = back.tell (FrontToBack.notification raw) st in
      (if sent then ok tt else err service_disconnect, st')

  -- `RpcService::notification`
  unfoldable pub notification : String → Option Json → back.State → Call (Unit {0})
  unfolding notification_message
  notification name params st = notification_message (back.write_notification name params) st
