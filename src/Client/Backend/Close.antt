-- ===== src/Client/Backend/Close.antt =====
-- A subscription that the server closes, alone and within a batch.
use jsonrpseex.Prelude.{String, ◌≡◌, Option, none, some, arith}
use jsonrpseex.Types.Ids.{RequestId, SubscriptionId}
use jsonrpseex.Types.Error.{Json}
use jsonrpseex.Client.Manager
use jsonrpseex.Client.Manager.{Kind, find_request, find_subscription}
use jsonrpseex.Client.Manager.Lifecycle.{remove_subscription_lem}
use jsonrpseex.Client.World.{Runtime, World, Sender, done, send}
use jsonrpseex.Client.Helpers.{process_notification, process_subscription_close_response}
use jsonrpseex.Client.Backend.{Loop, element}

module _ (rt : Runtime) where
  process_notification_keeps :
      (w : World rt) (method : String) (params : Option Json)
      → ((process_notification rt w method params).manager.requests ≡ w.manager.requests)
        × ((process_notification rt w method params).manager.subscriptions
            ≡ w.manager.subscriptions)
  unfolding process_notification send Manager.remove_notification_handler
  process_notification_keeps w method params = (ground arith, ground arith)

  -- The message that closes an active subscription frees its request id, and the subscription is
  -- unknown from then on.
  pub process_subscription_close_response_lem :
      (w : World rt) (sid : SubscriptionId) (id u : RequestId) (s : Sender rt) (unsub : String)
      → find_subscription w.manager sid ≡ some id
      → find_request w.manager id ≡ some (Kind.subscription u s unsub)
      → let (r, w') = process_subscription_close_response rt w sid in
        (r ≡ done tt)
        × (find_subscription w'.manager sid ≡ none)
        × (find_request w'.manager id ≡ none)
        × ((j : RequestId) → ¬ (id ≡ j) → find_request w'.manager j ≡ find_request w.manager j)
  unfolding process_subscription_close_response Manager.get_request_id_by_subscription_id
  process_subscription_close_response_lem w sid id u s unsub f h =
      let (r, gone, other, none_) = remove_subscription_lem w.manager id u sid s unsub h f in
      (
        ground (arith, f, r),
        ground (arith, f, r, none_),
        ground (arith, f, r, gone),
        λ j ne. ground (arith, f, r, other j ne),
      )

  -- An element of a batch that is read as the message that closes a subscription, and as a
  -- notification, but neither as a response nor as a notification of a subscription, is given to
  -- the notification handlers, if the batch as a whole is not read as such a message. No request
  -- and no subscription changes.
  pub element_ignores_close :
      (raw r : Json) (l : Loop rt) (sid : SubscriptionId) (method : String) (params : Option Json)
      → rt.read_response r ≡ none
      → rt.read_sub_response r ≡ none
      → rt.read_sub_error r ≡ some sid
      → rt.read_sub_error raw ≡ none
      → rt.read_notification r ≡ some (method, params)
      → let (_, w') = element rt raw l r in
        (w' ≡ process_notification rt l.world method params)
        × (w'.manager.requests ≡ l.world.manager.requests)
        × (w'.manager.subscriptions ≡ l.world.manager.subscriptions)
  unfolding element
  element_ignores_close raw r l sid method params a b c d e =
      let (p, q) = process_notification_keeps l.world method params in
      (ground (arith, a, b, d, e), ground (arith, a, b, d, e, p), ground (arith, a, b, d, e, q))
