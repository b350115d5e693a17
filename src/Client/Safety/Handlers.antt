-- ===== src/Client/Safety/Handlers.antt =====
-- Each handler of a server message keeps the manager well formed.
use jsonrpseex.Prelude.{
  String, ◌≡◌, ◌≢◌, refl, subst, inl, inr, Option, some, Option-cases, true, List, arith,
}
use jsonrpseex.Prelude.Map
use jsonrpseex.Types.Ids.{RequestId, RequestId-discrete, SubscriptionId}
use jsonrpseex.Types.Error.{Json}
use jsonrpseex.Client.Manager
use jsonrpseex.Client.Manager.{
  RequestManager, Kind, Range, put_request, find_request, find_subscription, as_subscription,
}
use jsonrpseex.Client.Manager.WellFormed.{
  IsWellFormed, is_active, keep, complete_pending_batch-IsWellFormed,
  remove_subscription-IsWellFormed, unsubscribe-IsWellFormed,
}
use jsonrpseex.Client.World.{Runtime, World, Sender, panics, RawResponse, send}
use jsonrpseex.Client.Helpers.{
  process_batch_response, process_subscription_response, process_subscription_close_response,
  process_notification, build_unsubscribe_message,
}

module _ {O S : Type 0} where
  -- The sink of an active subscription may be replaced.
  pub put_active-IsWellFormed :
      (m : RequestManager O S) (id u : RequestId) (s : S) (w : String)
      → IsWellFormed m
      → is_active (find_request m id) ≡ true
      → IsWellFormed (put_request m id (Kind.subscription u s w))
  put_active-IsWellFormed m id u s w wf a = keep m _ wf refl λ r.
      ground (arith, Map.get-insert RequestId-discrete m.requests id r (Kind.subscription u s w))

  active_of_sink :
      (m : RequestManager O S) (id : RequestId) (e : RequestId × S × String)
      → as_subscription m id ≡ some e
      → is_active (find_request m id) ≡ true
  unfolding as_subscription
  active_of_sink m id e h = ground arith

module _ (rt : Runtime) where
  abbrev pub IsSafe : World rt → Type 0
  IsSafe w = IsWellFormed w.manager

  manager-send :
      (w : World rt) (s : Sender rt) (msg : Json) → (send rt w s msg).2.manager ≡ w.manager
  unfolding send
  manager-send w s msg = ground arith

  pub process_batch_response-IsSafe :
      (w : World rt) (rps : List RawResponse) (range : Range)
      → IsSafe w
      → IsSafe (process_batch_response rt w rps range).1
  unfolding process_batch_response
  process_batch_response-IsSafe w rps range wf =
      subst IsWellFormed (ground arith) (complete_pending_batch-IsWellFormed w.manager wf range)

  pub process_subscription_response-IsSafe :
      (w : World rt) (sid : SubscriptionId) (result : Json)
      → IsSafe w
      → IsSafe (process_subscription_response rt w sid result).1
  unfolding process_subscription_response send Manager.get_request_id_by_subscription_id
  process_subscription_response-IsSafe w sid result wf =
      elim (Option-cases (find_subscription w.manager sid)) [
        | inl e ↦ subst IsWellFormed (ground (arith, e)) wf
        | inr (id, e) ↦ elim (Option-cases (as_subscription w.manager id)) [
          | inl f ↦ subst IsWellFormed (ground (arith, e, f)) wf
          | inr ((u, s, unsub), f) ↦ subst IsWellFormed (ground (arith, e, f)) (
              put_active-IsWellFormed w.manager id u (send rt w s result).1 unsub wf
                (active_of_sink w.manager id (u, s, unsub) f))
        ]
      ]

  pub process_subscription_close_response-IsSafe :
      (w : World rt) (sid : SubscriptionId)
      → IsSafe w
      → IsSafe (process_subscription_close_response rt w sid).1
  unfolding process_subscription_close_response Manager.get_request_id_by_subscription_id
  process_subscription_close_response-IsSafe w sid wf =
      elim (Option-cases (find_subscription w.manager sid)) [
        | inl e ↦ subst IsWellFormed (ground (arith, e)) wf
        | inr (id, e) ↦
            subst IsWellFormed (ground (arith, e))
              (remove_subscription-IsWellFormed w.manager wf id sid e)
      ]

  -- The subscription is found in both maps, so `.expect` does not panic.
  pub process_subscription_close_response-ne-panics :
      (w : World rt) (sid : SubscriptionId)
      → IsSafe w
      → (process_subscription_close_response rt w sid).0 ≢ panics
  unfolding process_subscription_close_response Manager.remove_subscription
      Manager.get_request_id_by_subscription_id
  process_subscription_close_response-ne-panics w sid wf h =
      elim (Option-cases (find_subscription w.manager sid)) [
        | inl e ↦ ground arith
        | inr (id, e) ↦ ground (arith, wf.backed sid id e)
      ]

  pub process_notification-IsSafe :
      (w : World rt) (method : String) (params : Option Json)
      → IsSafe w
      → IsSafe (process_notification rt w method params)
  unfolding process_notification send Manager.remove_notification_handler
  process_notification-IsSafe w method params wf =
      keep w.manager _ wf (ground arith) λ r. ground arith

  pub build_unsubscribe_message-IsSafe :
      (w : World rt) (id : RequestId) (sid : SubscriptionId)
      → find_subscription w.manager sid ≡ some id
      → IsSafe w
      → IsSafe (build_unsubscribe_message rt w id sid).1
  unfolding build_unsubscribe_message
  build_unsubscribe_message-IsSafe w id sid e wf =
      subst IsWellFormed (ground arith) (unsubscribe-IsWellFormed w.manager wf id sid e)
