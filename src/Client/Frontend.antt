-- ===== src/Client/Frontend.antt =====
-- core/src/client/async_client/mod.rs: `handle_frontend_messages`, and the messages of the front end
-- (core/src/client/mod.rs).
pub mod Safety
use Prim.Native.String.{◌++◌ as text_append}
use jsonrpseex.Prelude.{String, Option, none, some}
use jsonrpseex.Types.Result.{Result, ok, err}
use jsonrpseex.Types.Ids.{RequestId, SubscriptionId, occupied, display}
use jsonrpseex.Types.Method.{RegisterMethodError}
use jsonrpseex.Types.Error.{Json}
use jsonrpseex.Client.Manager
use jsonrpseex.Client.Manager.{Range}
use jsonrpseex.Client.World.{
  Runtime, Sender, ClientManager, World, RequestMessage, Outcome, done, ClientError, call_reply,
  batch_reply, subscribe_reply, register_reply, deliver, transmit, subscription_channel,
}
use jsonrpseex.Client.Helpers.{build_unsubscribe_message}

-- `SubscriptionMessage`
pub record SubscribeMessage (rt : Runtime) : Type 0 where
  pub raw : Json
  pub subscribe_id : RequestId
  pub unsubscribe_id : RequestId
  pub unsubscribe_method : String
  pub send_back : rt.Oneshot

pub data FrontToBack (rt : Runtime) : Type 0 where
  batch : Json → Range → rt.Oneshot → FrontToBack rt
  notification : Json → FrontToBack rt
  request : RequestMessage rt → FrontToBack rt
  subscribe : SubscribeMessage rt → FrontToBack rt
  register_notification : String → rt.Oneshot → FrontToBack rt
  unregister_notification : String → FrontToBack rt
  subscription_closed : SubscriptionId → FrontToBack rt

-- The text of the error for a subscribe request whose ids are taken.
unfoldable pub show_ids : RequestId → RequestId → String
unfolding display
show_ids sub unsub =
    text_append "sub_id=" (text_append (display sub) (text_append ":req_id=" (display unsub)))

module _ (rt : Runtime) where
  abbrev pub Sent : Type 0
  Sent = Outcome (Unit {0}) × World rt

  after_batch : World rt → Json → Range → Result rt.Oneshot (Unit {0}) × ClientManager rt → Sent
  after_batch w raw ids (ok _, m) = transmit rt (record w { manager = m }) raw
  after_batch w raw ids (err send_back, m) = (
    done tt,
    deliver rt (record w { manager = m })
        (batch_reply send_back (err (occupied (rt.show_range ids.start ids.end_)))),
  )

  after_request :
      World rt → RequestMessage rt → Result (Option rt.Oneshot) (Unit {0}) × ClientManager rt → Sent
  after_request w r (ok _, m) = transmit rt (record w { manager = m }) r.raw
  after_request w r (err none, m) = (done tt, record w { manager = m })
  after_request w r (err (some s), m) = (
    done tt,
    deliver rt (record w { manager = m }) (call_reply s (err (occupied (display r.id)))),
  )

  after_subscribe :
      World rt → SubscribeMessage rt → Result rt.Oneshot (Unit {0}) × ClientManager rt → Sent
  unfolding show_ids
  after_subscribe w r (ok _, m) = transmit rt (record w { manager = m }) r.raw
  after_subscribe w r (err send_back, m) = (
    done tt,
    deliver rt (record w { manager = m })
        (subscribe_reply send_back (
          err (
            ClientError.invalid_request_id (occupied (show_ids r.subscribe_id r.unsubscribe_id))))),
  )

  after_register :
      World rt
      → String
      → rt.Oneshot
      → Sender rt
      → Result RegisterMethodError (Unit {0}) × ClientManager rt
      → Sent
  after_register w method send_back s (ok _, m) = (
    done tt,
    deliver rt (record w { manager = m }) (register_reply send_back (ok (s.id, method))),
  )
  after_register w method send_back s (err e, m) = (
    done tt,
    deliver rt (record w { manager = m })
        (register_reply send_back (err (ClientError.register_method e))),
  )

  -- `stop_subscription`: the request is sent and not registered again.
  stop_subscription : Option (RequestMessage rt) × World rt → Sent
  stop_subscription (none, w) = (done tt, w)
  stop_subscription (some unsub, w) = transmit rt w unsub.raw

  close_subscription : World rt → SubscriptionId → Option RequestId → Sent
  unfolding stop_subscription
  close_subscription w sid none = (done tt, w)
  close_subscription w sid (some id) = stop_subscription (build_unsubscribe_message rt w id sid)

  unfoldable pub handle_frontend_messages : FrontToBack rt → World rt → Sent
  unfolding after_batch after_request after_subscribe after_register close_subscription
  handle_frontend_messages (batch raw ids send_back) w =
      after_batch w raw ids (Manager.insert_pending_batch w.manager ids send_back)
  handle_frontend_messages (notification raw) w = transmit rt w raw
  handle_frontend_messages (request r) w =
      after_request w r (Manager.insert_pending_call w.manager r.id r.send_back)
  handle_frontend_messages (subscribe r) w = after_subscribe w r (
      Manager.insert_pending_subscription w.manager r.subscribe_id r.unsubscribe_id r.send_back
        r.unsubscribe_method)
  handle_frontend_messages (register_notification method send_back) w =
      let (s, w') = subscription_channel rt w w.max_capacity in
      after_register w' method send_back s (Manager.insert_notification_handler w'.manager method s)
  handle_frontend_messages (unregister_notification method) w =
      (done tt, record w { manager = (Manager.remove_notification_handler w.manager method).1 })
  handle_frontend_messages (subscription_closed sid) w =
      close_subscription w sid (Manager.get_request_id_by_subscription_id w.manager sid)
