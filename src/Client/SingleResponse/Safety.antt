-- ===== src/Client/SingleResponse/Safety.antt =====
-- `process_single_response` keeps the manager well formed, and does not panic.
use jsonrpseex.Prelude.{
  ℕ, String, ◌≡◌, ◌≢◌, refl, subst, Option, none, some, arith, Bool-cases, inl, inr,
}
use jsonrpseex.Prelude.Map
use jsonrpseex.Types.Result.{Result, ok, err}
use jsonrpseex.Types.Ids.{RequestId, SubscriptionId, SubscriptionId-discrete}
use jsonrpseex.Types.Error.{Json, ErrorObject}
use jsonrpseex.Types.Response.{Success}
use jsonrpseex.Client.Manager
use jsonrpseex.Client.Manager.{RequestStatus, find_subscription}
use jsonrpseex.Client.Manager.WellFormed.{
  IsWellFormed, complete_pending_call-IsWellFormed, complete_pending_subscription-IsWellFormed,
  insert_subscription-IsWellFormed,
}
use jsonrpseex.Client.World.{
  Runtime, World, Sender, panics, RawResponse, ClientManager, subscription_channel, deliver,
  subscribe_reply,
}
use jsonrpseex.Client.Safety.Handlers.{IsSafe, build_unsubscribe_message-IsSafe}
use jsonrpseex.Client.SingleResponse.{
  hand_over, after_insert, activate, answer_subscribe_with, answer_subscribe, answer_call,
  by_status, process_single_response,
}

module _ (rt : Runtime) where
  hand_over-IsSafe :
      (w : World rt) (id : RequestId) (sid : SubscriptionId) (send : rt.Oneshot) (c : ℕ)
      → find_subscription w.manager sid ≡ some id
      → IsSafe rt w
      → IsSafe rt (hand_over rt w id sid send c).1
  unfolding hand_over
  hand_over-IsSafe w id sid send c e wf = elim (Bool-cases (rt.is_open send)) [
    | inl o ↦ subst IsWellFormed (ground (arith, o)) wf
    | inr o ↦ subst IsWellFormed (ground (arith, o)) (
        build_unsubscribe_message-IsSafe rt (deliver rt w (subscribe_reply send (ok (c, sid)))) id
          sid e wf)
  ]

  after_insert-IsSafe :
      (w : World rt) (id : RequestId) (sid : SubscriptionId) (send : rt.Oneshot) (c : ℕ)
      (r : Result (Sender rt) (Unit {0})) (m : ClientManager rt)
      → (r ≡ ok tt → find_subscription m sid ≡ some id)
      → IsWellFormed m
      → IsSafe rt (after_insert rt w id sid send c (r, m)).1
  unfolding after_insert
  after_insert-IsSafe w id sid send c (ok tt) m e wf = hand_over-IsSafe _ id sid send c (e refl) wf
  after_insert-IsSafe w id sid send c (err s) m e wf = wf

  inserted :
      (m : ClientManager rt) (id u : RequestId) (sid : SubscriptionId) (s : Sender rt)
      (unsub : String)
      → (Manager.insert_subscription m id u sid s unsub).0 ≡ ok tt
      → find_subscription (Manager.insert_subscription m id u sid s unsub).1 sid ≡ some id
  unfolding Manager.insert_subscription
  inserted m id u sid s unsub h =
      ground (arith, Map.get-insert SubscriptionId-discrete m.subscriptions sid sid id)

  activate-IsSafe :
      (w : World rt) (id u : RequestId) (send : rt.Oneshot) (unsub : String)
      (o : Option SubscriptionId)
      → IsSafe rt w
      → IsSafe rt (activate rt w id u send unsub o).1
  unfolding activate subscription_channel
  activate-IsSafe w id u send unsub none wf = wf
  activate-IsSafe w id u send unsub (some sid) wf =
      let (s, w') = subscription_channel rt w w.max_capacity in
      after_insert-IsSafe w' id sid send s.id _ _ (inserted w.manager id u sid s unsub)
        (insert_subscription-IsWellFormed w.manager wf id u sid s unsub)

  answer_subscribe_with-IsSafe :
      (w : World rt) (id u : RequestId) (send : rt.Oneshot) (unsub : String)
      (r : Result ErrorObject (Success Json))
      → IsSafe rt w
      → IsSafe rt (answer_subscribe_with rt w id u send unsub r).1
  unfolding answer_subscribe_with
  answer_subscribe_with-IsSafe w id u send unsub (err e) wf = wf
  answer_subscribe_with-IsSafe w id u send unsub (ok s) wf = activate-IsSafe w id u send unsub _ wf

  answer_subscribe-IsSafe :
      (w : World rt) (r : RawResponse) (o : Option (RequestId × rt.Oneshot × String))
      (m : ClientManager rt)
      → IsWellFormed m
      → IsSafe rt (answer_subscribe rt w r (o, m)).1
  unfolding answer_subscribe
  answer_subscribe-IsSafe w r none m wf = wf
  answer_subscribe-IsSafe w r (some (u, send, unsub)) m wf =
      answer_subscribe_with-IsSafe _ r.id u send unsub _ wf

  answer_call-IsSafe :
      (w : World rt) (r : RawResponse) (o : Option (Option rt.Oneshot)) (m : ClientManager rt)
      → IsWellFormed m
      → IsSafe rt (answer_call rt w r (o, m)).1
  unfolding answer_call
  answer_call-IsSafe w r none m wf = wf
  answer_call-IsSafe w r (some none) m wf = wf
  answer_call-IsSafe w r (some (some s)) m wf = wf

  by_status-IsSafe :
      (w : World rt) (r : RawResponse) (s : RequestStatus)
      → IsSafe rt w
      → IsSafe rt (by_status rt w r s).1
  unfolding by_status
  by_status-IsSafe w r RequestStatus.pending_method_call wf =
      answer_call-IsSafe w r _ _ (complete_pending_call-IsWellFormed w.manager wf r.id)
  by_status-IsSafe w r RequestStatus.pending_subscription wf =
      answer_subscribe-IsSafe w r _ _ (complete_pending_subscription-IsWellFormed w.manager wf r.id)
  by_status-IsSafe w r RequestStatus.subscription wf = wf
  by_status-IsSafe w r RequestStatus.invalid wf = wf

  pub process_single_response-IsSafe :
      (w : World rt) (r : RawResponse) → IsSafe rt w → IsSafe rt (process_single_response rt w r).1
  unfolding process_single_response
  process_single_response-IsSafe w r wf = by_status-IsSafe w r _ wf

  pub process_single_response-ne-panics :
      (w : World rt) (r : RawResponse) → (process_single_response rt w r).0 ≢ panics
  unfolding process_single_response subscription_channel
  process_single_response-ne-panics w r h = ground arith
