-- ===== src/Client/SingleResponse.antt =====
-- core/src/client/async_client/helpers.rs: `process_single_response`.
pub mod Safety
pub mod Effects
use jsonrpseex.Prelude.{ℕ, String, Option, none, some}
use jsonrpseex.Types.Result.{Result, ok, err}
use jsonrpseex.Types.Ids.{RequestId, SubscriptionId, not_pending_request, display}
use jsonrpseex.Types.Error.{ErrorObject, Json}
use jsonrpseex.Types.Response.{Success, try_from}
use jsonrpseex.Client.Manager
use jsonrpseex.Client.Manager.{RequestStatus}
use jsonrpseex.Client.World.{
  Runtime, RawResponse, Sender, ClientManager, World, RequestMessage, Outcome, done, fails,
  ClientError, call_reply, subscribe_reply, deliver, subscription_channel,
}
use jsonrpseex.Client.Helpers.{build_unsubscribe_message}
use jsonrpseex.Prelude.{if◌then◌else◌}

module _ (rt : Runtime) where
  -- What the handler of a message returns: an unsubscribe request to be sent, or an error.
  abbrev pub Handled : Type 0
  Handled = Outcome (Option (RequestMessage rt)) × World rt

  not_pending : World rt → RequestId → Handled
  not_pending w id = (fails (ClientError.invalid_request_id (not_pending_request (display id))), w)

  answer_call : World rt → RawResponse → Option (Option rt.Oneshot) × ClientManager rt → Handled
  unfolding not_pending
  answer_call w response (none, m) = not_pending (record w { manager = m }) response.id
  answer_call w response (some none, m) = (done none, record w { manager = m })
  answer_call w response (some (some send), m) =
      (done none, deliver rt (record w { manager = m }) (call_reply send (ok response)))

  -- If the front end has dropped the receiver, the subscription is given up at once.
  hand_over : World rt → RequestId → SubscriptionId → rt.Oneshot → ℕ → Handled
  hand_over w id sid send channel =
      let w' = deliver rt w (subscribe_reply send (ok (channel, sid))) in
      let (message, w'') = build_unsubscribe_message rt w' id sid in
      if rt.is_open send then (done none, w') else (done message, w'')

  after_insert :
      World rt
      → RequestId
      → SubscriptionId
      → rt.Oneshot
      → ℕ
      → Result (Sender rt) (Unit {0}) × ClientManager rt
      → Handled
  unfolding hand_over
  after_insert w id sid send channel (ok _, m) =
      hand_over (record w { manager = m }) id sid send channel
  after_insert w id sid send channel (err _, m) = (
    done none,
    deliver rt (record w { manager = m })
        (subscribe_reply send (err ClientError.invalid_subscription_id)),
  )

  activate :
      World rt → RequestId → RequestId → rt.Oneshot → String → Option SubscriptionId → Handled
  unfolding after_insert
  activate w id u send unsub none =
      (done none, deliver rt w (subscribe_reply send (err ClientError.parse_error)))
  activate w id u send unsub (some sid) =
      let (s, w') = subscription_channel rt w w.max_capacity in
      after_insert w' id sid send s.id (Manager.insert_subscription w'.manager id u sid s unsub)

  answer_subscribe_with :
      World rt
      → RequestId
      → RequestId
      → rt.Oneshot
      → String
      → Result ErrorObject (Success Json)
      → Handled
  unfolding activate
  answer_subscribe_with w id u send unsub (err e) =
      (done none, deliver rt w (subscribe_reply send (err (ClientError.call e))))
  answer_subscribe_with w id u send unsub (ok s) =
      activate w id u send unsub (rt.read_sub_id s.result)

  answer_subscribe :
      World rt → RawResponse → Option (RequestId × rt.Oneshot × String) × ClientManager rt → Handled
  unfolding not_pending answer_subscribe_with
  answer_subscribe w response (none, m) = not_pending (record w { manager = m }) response.id
  answer_subscribe w response (some (u, send, unsub), m) =
      answer_subscribe_with (record w { manager = m }) response.id u send unsub (try_from response)

  by_status : World rt → RawResponse → RequestStatus → Handled
  unfolding answer_call answer_subscribe not_pending
  by_status w response RequestStatus.pending_method_call =
      answer_call w response (Manager.complete_pending_call w.manager response.id)
  by_status w response RequestStatus.pending_subscription =
      answer_subscribe w response (Manager.complete_pending_subscription w.manager response.id)
  by_status w response RequestStatus.subscription = not_pending w response.id
  by_status w response RequestStatus.invalid = not_pending w response.id

  unfoldable pub process_single_response : World rt → RawResponse → Handled
  unfolding by_status
  process_single_response w response =
      by_status w response (Manager.request_status w.manager response.id)
