-- ===== src/Client/SingleResponse/Effects.antt =====
-- What the front end is told for a response of the server.
use jsonrpseex.Prelude.{
  ℕ, String, ◌≡◌, ◌≢◌, refl, Option, none, some, Bool, true, false, not, if◌then◌else◌, [], ◌∷◌,
  ◌++◌, arith,
}
use jsonrpseex.Prelude.Map
use jsonrpseex.Types.Result.{ok}
use jsonrpseex.Types.Ids.{
  RequestId, RequestId-discrete, SubscriptionId, not_pending_request, display,
}
use jsonrpseex.Types.Error.{Json}
use jsonrpseex.Types.Response.{Success, try_from}
use jsonrpseex.Client.Manager
use jsonrpseex.Client.Manager.{Kind, RequestStatus, find_request, find_subscription}
use jsonrpseex.Client.Manager.Lifecycle.{
  complete_pending_subscription_lem, insert_subscription_lem, unsubscribe_lem,
}
use jsonrpseex.Client.World.{
  Runtime, RawResponse, World, Sender, RequestMessage, done, fails, ClientError, call_reply,
  subscription_channel,
}
use jsonrpseex.Client.Helpers.{build_unsubscribe_message}
use jsonrpseex.Client.Frontend.{handle_frontend_messages, FrontToBack}
use jsonrpseex.Client.SingleResponse.{Handled, hand_over, process_single_response}

module _ (rt : Runtime) where
  abbrev pub is_refusal : Handled rt → Bool
  is_refusal (fails e, w) = true
  is_refusal _ = false

  abbrev pub is_pending : RequestStatus → Bool
  is_pending RequestStatus.pending_method_call = true
  is_pending RequestStatus.pending_subscription = true
  is_pending _ = false

  -- A response under whose id nothing is pending is refused.
  pub process_single_response_refuses :
      (w : World rt) (rp : RawResponse)
      → is_pending (Manager.request_status w.manager rp.id) ≡ false
      → process_single_response rt w rp
        ≡ (fails (ClientError.invalid_request_id (not_pending_request (display rp.id))), w)
  unfolding process_single_response
  process_single_response_refuses w rp h = ground (arith, h)

  -- An entry of the manager that waits for a response: of a call, also one that nobody waits for, or
  -- of a subscription request.
  abbrev pub awaits : Option (Kind rt.Oneshot (Sender rt)) → Bool
  awaits none = false
  awaits (some (Kind.pending_method_call o)) = true
  awaits (some (Kind.pending_subscription u o unsub)) = true
  awaits (some (Kind.subscription u s unsub)) = false

  -- A response is refused exactly if the manager has neither a call nor a subscription request that
  -- waits for it under its id, and a refusal changes nothing.
  pub process_single_response_refuses_iff :
      (w : World rt) (rp : RawResponse)
      → let (r, w') = process_single_response rt w rp in
        let p = awaits (find_request w.manager rp.id) in
        (is_refusal (r, w') ≡ not p) × (w' ≡ (if p then w' else w))
  unfolding process_single_response Manager.request_status Manager.complete_pending_call
      Manager.complete_pending_subscription subscription_channel
  process_single_response_refuses_iff w rp = (ground arith, ground arith)

  -- The response to a pending call is given to its caller and no other entry changes. A second
  -- response with the same id is refused, and changes nothing.
  pub process_single_response_once :
      (w : World rt) (rp again : RawResponse) (o : rt.Oneshot)
      → find_request w.manager rp.id ≡ some (Kind.pending_method_call (some o))
      → again.id ≡ rp.id
      → let (r, w1) = process_single_response rt w rp in
        (r ≡ done none)
        × (w1.delivered ≡ w.delivered ++ call_reply o (ok rp) ∷ [])
        × ((j : RequestId) → rp.id ≢ j → find_request w1.manager j ≡ find_request w.manager j)
        × (process_single_response rt w1 again
            ≡ (fails (ClientError.invalid_request_id (not_pending_request (display rp.id))), w1))
  unfolding process_single_response Manager.request_status Manager.complete_pending_call
  process_single_response_once w rp again o h same =
      let law = Map.get-remove RequestId-discrete w.manager.requests rp.id in
      (
        ground (arith, h),
        ground (arith, h),
        λ j ne. ground (arith, h, ne, law j),
        ground (arith, h, same, law rp.id),
      )

  -- A request with a new id that the transport takes is sent once, its answer reaches the front end,
  -- and after that the manager has the entries that it had before.
  pub process_single_response-handle_frontend_messages :
      (w : World rt) (raw : Json) (o : rt.Oneshot) (rp : RawResponse)
      → find_request w.manager rp.id ≡ none
      → rt.accepts w.wire raw ≡ true
      → let r : RequestMessage rt = record { raw = raw; id = rp.id; send_back = some o } in
        let (sent, w1) = handle_frontend_messages rt (FrontToBack.request r) w in
        let (a, w2) = process_single_response rt w1 rp in
        (sent ≡ done tt)
        × (w1.wire ≡ w.wire ++ raw ∷ [])
        × (a ≡ done none)
        × (w2.delivered ≡ w.delivered ++ call_reply o (ok rp) ∷ [])
        × ((j : RequestId) → find_request w2.manager j ≡ find_request w.manager j)
  unfolding handle_frontend_messages Manager.insert_pending_call process_single_response
      Manager.request_status Manager.complete_pending_call
  process_single_response-handle_frontend_messages w raw o rp h acc =
      let k = Kind.pending_method_call (some o) in
      let new = Map.get-insert RequestId-discrete w.manager.requests rp.id in
      let m1 = Map.insert RequestId-discrete w.manager.requests rp.id k in
      (
        ground (arith, h, acc),
        ground (arith, h, acc),
        ground (arith, h, acc, new rp.id k),
        ground (arith, h, acc, new rp.id k),
        λ j.
            ground
              (arith, h, acc, new rp.id k, new j k, Map.get-remove RequestId-discrete m1 rp.id j),
      )

  hand_over_closed :
      (w : World rt) (id u : RequestId) (sid : SubscriptionId) (o : rt.Oneshot) (c : ℕ)
      (s : Sender rt) (unsub : String) (raw : Json)
      → find_request w.manager id ≡ some (Kind.subscription u s unsub)
      → find_subscription w.manager sid ≡ some id
      → rt.is_open o ≡ false
      → rt.write_unsubscribe u unsub sid ≡ some raw
      → let (r, w1) = hand_over rt w id sid o c in
        (r ≡ done (some (record { raw = raw; id = u; send_back = none })))
        × (w1.manager ≡ (Manager.unsubscribe w.manager id sid).1)
        × (w1.wire ≡ w.wire)
  unfolding hand_over build_unsubscribe_message Manager.unsubscribe
  hand_over_closed w id u sid o c s unsub raw h f cl wr =
      (ground (arith, h, f, cl, wr), ground (arith, h, f, cl, wr), ground (arith, h, f, cl, wr))

  refused_again :
      (w : World rt) (message : RequestMessage rt) (k : Kind rt.Oneshot (Sender rt))
      → find_request w.manager message.id ≡ some k
      → message.send_back ≡ none
      → handle_frontend_messages rt (FrontToBack.request message) w ≡ (done tt, w)
  unfolding handle_frontend_messages Manager.insert_pending_call
  refused_again w message k h n = ground (arith, h, n)

  -- The world in which the answer of a subscribe request is handed over.
  handed : World rt → RequestId → RequestId → SubscriptionId → String → World rt
  handed w id u sid unsub =
      let (s, w1) =
        subscription_channel rt
          (record w { manager = (Manager.complete_pending_subscription w.manager id).1 })
          w.max_capacity in
      record w1 { manager = (Manager.insert_subscription w1.manager id u sid s unsub).1 }

  process_single_response_hands_over :
      (w : World rt) (rp : RawResponse) (u : RequestId) (o : rt.Oneshot) (unsub : String)
      (s : Success Json) (sid : SubscriptionId)
      → find_request w.manager rp.id ≡ some (Kind.pending_subscription u o unsub)
      → try_from rp ≡ ok s
      → rt.read_sub_id s.result ≡ some sid
      → find_subscription w.manager sid ≡ none
      → process_single_response rt w rp
        ≡ hand_over rt (handed w rp.id u sid unsub) rp.id sid o w.next_channel
  unfolding process_single_response Manager.request_status subscription_channel handed
  process_single_response_hands_over w rp u o unsub s sid h t r f =
      let (a, b, c, d) = complete_pending_subscription_lem w.manager rp.id u o unsub h in
      let m2 = (Manager.complete_pending_subscription w.manager rp.id).1 in
      let fresh : find_subscription m2 sid ≡ none = cc (d, f) in
      let sender : Sender rt = record { id = w.next_channel; inner = rt.channel w.max_capacity } in
      let (p, _, _, _) = insert_subscription_lem m2 rp.id u sid sender unsub b fresh in
      ground (arith, h, a, t, r, p)

  -- If the front end has dropped the receiver when the answer to its subscribe request arrives, the
  -- handler gives up the subscription and returns an unsubscribe request, which the front end's
  -- handler then does not send, as its id is still registered.
  pub process_single_response_never_unsubscribes :
      (w : World rt) (rp : RawResponse) (u : RequestId) (o : rt.Oneshot) (unsub : String)
      (s : Success Json) (sid : SubscriptionId) (raw : Json)
      → find_request w.manager rp.id ≡ some (Kind.pending_subscription u o unsub)
      → find_request w.manager u ≡ some (Kind.pending_method_call none)
      → try_from rp ≡ ok s
      → rt.read_sub_id s.result ≡ some sid
      → find_subscription w.manager sid ≡ none
      → rt.is_open o ≡ false
      → rt.write_unsubscribe u unsub sid ≡ some raw
      → let message : RequestMessage rt = record { raw = raw; id = u; send_back = none } in
        let (r, w1) = process_single_response rt w rp in
        (r ≡ done (some message))
        × (find_subscription w1.manager sid ≡ none)
        × (handle_frontend_messages rt (FrontToBack.request message) w1 ≡ (done tt, w1))
        × (w1.wire ≡ w.wire)
  unfolding handed subscription_channel
  process_single_response_never_unsubscribes w rp u o unsub s sid raw h k t r f c wr =
      let e = process_single_response_hands_over w rp u o unsub s sid h t r f in
      let (_, b, other, d) = complete_pending_subscription_lem w.manager rp.id u o unsub h in
      let m2 = (Manager.complete_pending_subscription w.manager rp.id).1 in
      let sender : Sender rt = record { id = w.next_channel; inner = rt.channel w.max_capacity } in
      let (_, q, kept, z) = insert_subscription_lem m2 rp.id u sid sender unsub b (cc (d, f)) in
      let m3 = (Manager.insert_subscription m2 rp.id u sid sender unsub).1 in
      let (x, y, wire) =
        hand_over_closed (handed w rp.id u sid unsub) rp.id u sid o w.next_channel sender unsub raw
          q z c wr in
      let (_, _, same, gone) = unsubscribe_lem m3 rp.id u sid sender unsub q z in
      let ne : rp.id ≢ u = λ p. ground (arith, p, h, k) in
      let w1 = (process_single_response rt w rp).1 in
      let mgr : w1.manager ≡ (Manager.unsubscribe m3 rp.id sid).1 = cc (e, y) in
      let still : find_request w1.manager u ≡ some (Kind.pending_method_call none) =
        cc (mgr, same u ne, kept u ne, other u ne, k) in
      (cc (e, x), cc (mgr, gone), refused_again w1 _ _ still refl, cc (e, wire))
