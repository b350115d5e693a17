-- ===== src/Client/Helpers.antt =====
-- core/src/client/async_client/helpers.rs: what the client does with a message of the server.
pub mod Batch
use jsonrpseex.Prelude.{
  ℕ, ◌-◌, String, Option, none, some, List, [], ◌∷◌, leb, ltb, ◌&&◌, if◌then◌else◌, length, set,
  replicate,
}
use jsonrpseex.Types.Result.{Result, ok, err, ◌>>=◌}
use jsonrpseex.Types.Ids.{
  RequestId, SubscriptionId, InvalidRequestId, not_pending_request, try_parse_inner_as_number,
  display,
}
use jsonrpseex.Types.Error.{ErrorObject, Json}
use jsonrpseex.Types.Error
use jsonrpseex.Prelude.Int.{pos}
use jsonrpseex.Types.Response
use jsonrpseex.Types.Response.{ResponsePayload, Success, try_from}
use jsonrpseex.Client.Manager
use jsonrpseex.Client.Manager.{Kind, Range, RequestStatus, put_request}
use jsonrpseex.Client.World.{
  Runtime, RawResponse, Sender, SendError, ClientManager, World, RequestMessage, Outcome, done,
  panics, batch_reply, deliver, send,
}

-- The element of the vector of responses that no response has replaced.
unfoldable pub placeholder : RawResponse
unfolding Response.new Error.new
placeholder = Response.new (ResponsePayload.error (Error.new (pos 0) "" none)) RequestId.null

-- The loop over the responses: each is put at the place that its id has in the range.
unfoldable pub fill :
    ℕ → List RawResponse → List RawResponse → Result InvalidRequestId (List RawResponse)
fill start [] responses = ok responses
fill start (rp ∷ rps) responses = do
  id ← try_parse_inner_as_number rp.id
  if leb start id && ltb (id - start) (length responses)
      then fill start rps (set responses (id - start) rp)
      else err (not_pending_request (display rp.id))

module _ (rt : Runtime) where
  -- The `?` inside the loop returns before anything is sent.
  answer_batch :
      World rt
      → rt.Oneshot
      → Result InvalidRequestId (List RawResponse)
      → Result InvalidRequestId (Unit {0}) × World rt
  answer_batch w send_back (ok responses) =
      (ok tt, deliver rt w (batch_reply send_back (ok responses)))
  answer_batch w send_back (err e) = (err e, w)

  take_batch :
      World rt
      → List RawResponse
      → Range
      → Option rt.Oneshot × ClientManager rt
      → Result InvalidRequestId (Unit {0}) × World rt
  unfolding answer_batch
  take_batch w rps range (none, m) =
      (err (not_pending_request (rt.show_range range.start range.end_)), record w { manager = m })
  take_batch w rps range (some send_back, m) =
      answer_batch (record w { manager = m }) send_back
        (fill range.start rps (replicate (range.end_ - range.start) placeholder))

  unfoldable pub process_batch_response :
      World rt → List RawResponse → Range → Result InvalidRequestId (Unit {0}) × World rt
  unfolding take_batch
  process_batch_response w rps range =
      take_batch w rps range (Manager.complete_pending_batch w.manager range)

  -- The sink is sent to in place: it stays in its entry, with its channel in the new state.
  forward_to_sink :
      World rt
      → RequestId
      → SubscriptionId
      → RequestId × Sender rt × String
      → Result SendError (Unit {0}) × Sender rt × World rt
      → Option SubscriptionId × World rt
  forward_to_sink w id sid (u, _, unsub) (r, s, w') =
      let w'' = record w' { manager = put_request w'.manager id (Kind.subscription u s unsub) } in
      elim r [ ok _ ↦ (none, w'') | err _ ↦ (some sid, w'') ]

  forward :
      World rt
      → RequestId
      → SubscriptionId
      → Json
      → Option (RequestId × Sender rt × String)
      → Option SubscriptionId × World rt
  unfolding forward_to_sink
  forward w id sid result none = (none, w)
  forward w id sid result (some (u, s, unsub)) =
      forward_to_sink w id sid (u, s, unsub) (send rt w s result)

  forward_by_id :
      World rt → SubscriptionId → Json → Option RequestId → Option SubscriptionId × World rt
  unfolding forward
  forward_by_id w sid result none = (none, w)
  forward_by_id w sid result (some id) =
      forward w id sid result (Manager.as_subscription w.manager id)

  unfoldable pub process_subscription_response :
      World rt → SubscriptionId → Json → Option SubscriptionId × World rt
  unfolding forward_by_id
  process_subscription_response w sid result =
      forward_by_id w sid result (Manager.get_request_id_by_subscription_id w.manager sid)

  -- `.expect("Both request ID and sub ID in RequestManager; qed")`
  expect_removed :
      World rt → Manager.Unsubscribed rt.Oneshot (Sender rt) → Outcome (Unit {0}) × World rt
  expect_removed w (none, m) = (panics, record w { manager = m })
  expect_removed w (some _, m) = (done tt, record w { manager = m })

  close_by_id : World rt → SubscriptionId → Option RequestId → Outcome (Unit {0}) × World rt
  unfolding expect_removed
  close_by_id w sid none = (done tt, w)
  close_by_id w sid (some id) = expect_removed w (Manager.remove_subscription w.manager id sid)

  unfoldable pub process_subscription_close_response :
      World rt → SubscriptionId → Outcome (Unit {0}) × World rt
  unfolding close_by_id
  process_subscription_close_response w sid =
      close_by_id w sid (Manager.get_request_id_by_subscription_id w.manager sid)

  -- A handler that cannot take the message is removed; else its sink stays.
  after_notify : World rt → String → Result SendError (Unit {0}) × Sender rt × World rt → World rt
  after_notify w method (ok _, s, w') = record w' {
    manager = Manager.put_handler w'.manager method s;
  }
  after_notify w method (err _, s, w') = record w' {
    manager = (Manager.remove_notification_handler w'.manager method).1;
  }

  notify : World rt → String → Json → Option (Sender rt) → World rt
  unfolding after_notify
  notify w method params none = w
  notify w method params (some s) = after_notify w method (send rt w s params)

  or_null : Option Json → Json
  or_null none = rt.null_json
  or_null (some j) = j

  unfoldable pub process_notification : World rt → String → Option Json → World rt
  unfolding notify or_null
  process_notification w method params =
      notify w method (or_null params) (Manager.as_notification_handler w.manager method)

  unsubscribe_message : Option Json → RequestId → Option (RequestMessage rt)
  unsubscribe_message none id = none
  unsubscribe_message (some raw) id = some (record { raw = raw; id = id; send_back = none })

  after_unsubscribe :
      World rt → Manager.Unsubscribed rt.Oneshot (Sender rt) → Option (RequestMessage rt) × World rt
  unfolding unsubscribe_message
  after_unsubscribe w (none, m) = (none, record w { manager = m })
  after_unsubscribe w (some (u, _, unsub, sid), m) =
      (unsubscribe_message (rt.write_unsubscribe u unsub sid) u, record w { manager = m })

  unfoldable pub build_unsubscribe_message :
      World rt → RequestId → SubscriptionId → Option (RequestMessage rt) × World rt
  unfolding after_unsubscribe
  build_unsubscribe_message w id sid = after_unsubscribe w (Manager.unsubscribe w.manager id sid)
