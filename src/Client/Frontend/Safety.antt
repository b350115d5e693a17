-- ===== src/Client/Frontend/Safety.antt =====
-- The messages of the front end keep the manager well formed.
use jsonrpseex.Prelude.{String, ◌≡◌, ◌≢◌, refl, subst, Option, none, some, arith}
use jsonrpseex.Types.Result.{Result, ok, err}
use jsonrpseex.Types.Ids.{RequestId, SubscriptionId}
use jsonrpseex.Types.Error.{Json}
use jsonrpseex.Client.Manager
use jsonrpseex.Client.Manager.{Range, find_subscription}
use jsonrpseex.Types.Method.{RegisterMethodError}
use jsonrpseex.Client.Manager.WellFormed.{
  IsWellFormed, insert_pending_batch-IsWellFormed, insert_pending_call-IsWellFormed,
  insert_pending_subscription-IsWellFormed, insert_notification_handler-IsWellFormed,
  remove_notification_handler-IsWellFormed,
}
use jsonrpseex.Client.World.{
  Runtime, World, Sender, panics, ClientManager, RequestMessage, transmit, subscription_channel,
}
use jsonrpseex.Client.Safety.Handlers.{IsSafe, build_unsubscribe_message-IsSafe}
use jsonrpseex.Client.Frontend.{
  FrontToBack, SubscribeMessage, batch, notification, request, subscribe, register_notification,
  unregister_notification, subscription_closed, after_batch, after_request, after_subscribe,
  after_register, stop_subscription, close_subscription, handle_frontend_messages,
}

module _ (rt : Runtime) where
  transmit-IsSafe : (w : World rt) (j : Json) → IsSafe rt w → IsSafe rt (transmit rt w j).1
  transmit-IsSafe w j wf = subst IsWellFormed (ground arith) wf

  after_batch-IsSafe :
      (w : World rt) (raw : Json) (ids : Range) (r : Result rt.Oneshot (Unit {0}))
      (m : ClientManager rt)
      → IsWellFormed m
      → IsSafe rt (after_batch rt w raw ids (r, m)).1
  unfolding after_batch
  after_batch-IsSafe w raw ids (ok _) m wf = transmit-IsSafe (record w { manager = m }) raw wf
  after_batch-IsSafe w raw ids (err s) m wf = wf

  after_request-IsSafe :
      (w : World rt) (q : RequestMessage rt) (r : Result (Option rt.Oneshot) (Unit {0}))
      (m : ClientManager rt)
      → IsWellFormed m
      → IsSafe rt (after_request rt w q (r, m)).1
  unfolding after_request
  after_request-IsSafe w q (ok _) m wf = transmit-IsSafe (record w { manager = m }) q.raw wf
  after_request-IsSafe w q (err none) m wf = wf
  after_request-IsSafe w q (err (some s)) m wf = wf

  after_subscribe-IsSafe :
      (w : World rt) (q : SubscribeMessage rt) (r : Result rt.Oneshot (Unit {0}))
      (m : ClientManager rt)
      → IsWellFormed m
      → IsSafe rt (after_subscribe rt w q (r, m)).1
  unfolding after_subscribe
  after_subscribe-IsSafe w q (ok _) m wf = transmit-IsSafe (record w { manager = m }) q.raw wf
  after_subscribe-IsSafe w q (err s) m wf = wf

  after_register-IsSafe :
      (w : World rt) (method : String) (o : rt.Oneshot) (s : Sender rt)
      (r : Result RegisterMethodError (Unit {0})) (m : ClientManager rt)
      → IsWellFormed m
      → IsSafe rt (after_register rt w method o s (r, m)).1
  unfolding after_register
  after_register-IsSafe w method o s (ok _) m wf = wf
  after_register-IsSafe w method o s (err e) m wf = wf

  stop_subscription-IsSafe :
      (o : Option (RequestMessage rt)) (w : World rt)
      → IsSafe rt w
      → IsSafe rt (stop_subscription rt (o, w)).1
  unfolding stop_subscription
  stop_subscription-IsSafe none w wf = wf
  stop_subscription-IsSafe (some q) w wf = transmit-IsSafe w q.raw wf

  close_subscription-IsSafe :
      (w : World rt) (sid : SubscriptionId) (o : Option RequestId)
      → find_subscription w.manager sid ≡ o
      → IsSafe rt w
      → IsSafe rt (close_subscription rt w sid o).1
  unfolding close_subscription
  close_subscription-IsSafe w sid none e wf = wf
  close_subscription-IsSafe w sid (some id) e wf =
      stop_subscription-IsSafe _ _ (build_unsubscribe_message-IsSafe rt w id sid e wf)

  pub handle_frontend_messages-IsSafe :
      (f : FrontToBack rt) (w : World rt)
      → IsSafe rt w
      → IsSafe rt (handle_frontend_messages rt f w).1
  unfolding handle_frontend_messages subscription_channel Manager.get_request_id_by_subscription_id
  handle_frontend_messages-IsSafe (batch raw ids o) w wf =
      after_batch-IsSafe w raw ids _ _ (insert_pending_batch-IsWellFormed w.manager wf ids o)
  handle_frontend_messages-IsSafe (notification raw) w wf = transmit-IsSafe w raw wf
  handle_frontend_messages-IsSafe (request q) w wf =
      after_request-IsSafe w q _ _ (insert_pending_call-IsWellFormed w.manager wf q.id q.send_back)
  handle_frontend_messages-IsSafe (subscribe q) w wf = after_subscribe-IsSafe w q _ _ (
      insert_pending_subscription-IsWellFormed w.manager wf q.subscribe_id q.unsubscribe_id
        q.send_back q.unsubscribe_method)
  handle_frontend_messages-IsSafe (register_notification method o) w wf =
      let (s, w') = subscription_channel rt w w.max_capacity in
      after_register-IsSafe w' method o s _ _
        (insert_notification_handler-IsWellFormed w.manager wf method s)
  handle_frontend_messages-IsSafe (unregister_notification method) w wf =
      remove_notification_handler-IsWellFormed w.manager wf method
  handle_frontend_messages-IsSafe (subscription_closed sid) w wf =
      close_subscription-IsSafe w sid _ refl wf

  pub handle_frontend_messages-ne-panics :
      (f : FrontToBack rt) (w : World rt) → (handle_frontend_messages rt f w).0 ≢ panics
  unfolding handle_frontend_messages
  handle_frontend_messages-ne-panics (notification raw) w h = ground arith
  handle_frontend_messages-ne-panics _ w h = ground arith
