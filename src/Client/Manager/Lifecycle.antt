-- ===== src/Client/Manager/Lifecycle.antt =====
-- The operations of the manager one after the other: a call, and a subscription.
use jsonrpseex.Prelude.{String, ◌≡◌, ◌≢◌, Option, none, some, arith}
use jsonrpseex.Prelude.Map
use jsonrpseex.Types.Result.{ok}
use jsonrpseex.Types.Ids.{RequestId, RequestId-discrete, SubscriptionId, SubscriptionId-discrete}
use jsonrpseex.Client.Manager.{
  RequestManager, Kind, find_request, find_subscription, insert_pending_call, complete_pending_call,
  insert_pending_subscription, complete_pending_subscription, insert_subscription,
  remove_subscription, unsubscribe,
}

module _ {O S : Type 0} (m : RequestManager O S) where
  -- A call with a new id is completed once: the first completion gives back what was inserted and
  -- leaves every entry as it was before the insertion, and a second one gives nothing.
  pub complete_pending_call-insert_pending_call :
      (id : RequestId) (o : Option O)
      → find_request m id ≡ none
      → let m1 = (insert_pending_call m id o).1 in
        let (first, m2) = complete_pending_call m1 id in
        ((insert_pending_call m id o).0 ≡ ok tt)
        × (first ≡ some o)
        × ((j : RequestId) → find_request m2 j ≡ find_request m j)
        × (complete_pending_call m2 id ≡ (none, m2))
  unfolding insert_pending_call complete_pending_call
  complete_pending_call-insert_pending_call id o vacant =
      let back = Map.get-insert RequestId-discrete m.requests id id (Kind.pending_method_call o) in
      let m1 = Map.insert RequestId-discrete m.requests id (Kind.pending_method_call o) in
      (
        ground (arith, vacant),
        ground (arith, vacant, back),
        λ j. ground (
          arith,
          vacant,
          back,
          Map.get-insert RequestId-discrete m.requests id j (Kind.pending_method_call o),
          Map.get-remove RequestId-discrete m1 id j,
        ),
        ground (arith, vacant, back, Map.get-remove RequestId-discrete m1 id id),
      )

  pub insert_pending_subscription_lem :
      (id u : RequestId) (o : O) (w : String)
      → find_request m id ≡ none
      → find_request m u ≡ none
      → id ≢ u
      → let m' = (insert_pending_subscription m id u o w).1 in
        (find_request m' id ≡ some (Kind.pending_subscription u o w))
        × (find_request m' u ≡ some (Kind.pending_method_call none))
        × (m'.subscriptions ≡ m.subscriptions)
  unfolding insert_pending_subscription
  insert_pending_subscription_lem id u o w h k ne =
      let m1 = Map.insert RequestId-discrete m.requests id (Kind.pending_subscription u o w) in
      let one =
        Map.get-insert RequestId-discrete m.requests id id (Kind.pending_subscription u o w) in
      let two = λ (j : RequestId).
        Map.get-insert RequestId-discrete m1 u j (Kind.pending_method_call none) in
      (
        ground (arith, h, k, ne, one, two id),
        ground (arith, h, k, ne, one, two u),
        ground (arith, h, k, ne),
      )

  pub complete_pending_subscription_lem :
      (id u : RequestId) (o : O) (w : String)
      → find_request m id ≡ some (Kind.pending_subscription u o w)
      → let (r, m') = complete_pending_subscription m id in
        (r ≡ some (u, o, w))
        × (find_request m' id ≡ none)
        × ((j : RequestId) → id ≢ j → find_request m' j ≡ find_request m j)
        × (m'.subscriptions ≡ m.subscriptions)
  unfolding complete_pending_subscription
  complete_pending_subscription_lem id u o w h =
      let gone = Map.get-remove RequestId-discrete m.requests id in
      (
        ground (arith, h),
        ground (arith, h, gone id),
        λ j ne. ground (arith, h, ne, gone j),
        ground (arith, h),
      )

  pub insert_subscription_lem :
      (id u : RequestId) (sid : SubscriptionId) (s : S) (w : String)
      → find_request m id ≡ none
      → find_subscription m sid ≡ none
      → let (r, m') = insert_subscription m id u sid s w in
        (r ≡ ok tt)
        × (find_request m' id ≡ some (Kind.subscription u s w))
        × ((j : RequestId) → id ≢ j → find_request m' j ≡ find_request m j)
        × (find_subscription m' sid ≡ some id)
  unfolding insert_subscription
  insert_subscription_lem id u sid s w h f =
      let new = λ (j : RequestId).
        Map.get-insert RequestId-discrete m.requests id j (Kind.subscription u s w) in
      (
        ground (arith, h, f),
        ground (arith, h, f, new id),
        λ j ne. ground (arith, h, f, ne, new j),
        ground (arith, h, f, Map.get-insert SubscriptionId-discrete m.subscriptions sid sid id),
      )

  -- What an unsubscription leaves of an active subscription: its request id stands for a call whose
  -- answer nobody takes, its own id is unknown, and every other request is as before.
  pub unsubscribe_lem :
      (id u : RequestId) (sid : SubscriptionId) (s : S) (w : String)
      → find_request m id ≡ some (Kind.subscription u s w)
      → find_subscription m sid ≡ some id
      → let (r, m') = unsubscribe m id sid in
        (r ≡ some (u, s, w, sid))
        × (find_request m' id ≡ some (Kind.pending_method_call none))
        × ((j : RequestId) → id ≢ j → find_request m' j ≡ find_request m j)
        × (find_subscription m' sid ≡ none)
  unfolding unsubscribe
  unsubscribe_lem id u sid s w h f =
      let new = λ (j : RequestId).
        Map.get-insert RequestId-discrete m.requests id j (Kind.pending_method_call none) in
      (
        ground (arith, h, f),
        ground (arith, h, f, new id),
        λ j ne. ground (arith, h, f, ne, new j),
        ground (arith, h, f, Map.get-remove SubscriptionId-discrete m.subscriptions sid sid),
      )

  pub remove_subscription_lem :
      (id u : RequestId) (sid : SubscriptionId) (s : S) (w : String)
      → find_request m id ≡ some (Kind.subscription u s w)
      → find_subscription m sid ≡ some id
      → let (r, m') = remove_subscription m id sid in
        (r ≡ some (u, s, w, sid))
        × (find_request m' id ≡ none)
        × ((j : RequestId) → id ≢ j → find_request m' j ≡ find_request m j)
        × (find_subscription m' sid ≡ none)
  unfolding remove_subscription
  remove_subscription_lem id u sid s w h f =
      let gone = Map.get-remove RequestId-discrete m.requests id in
      (
        ground (arith, h, f),
        ground (arith, h, f, gone id),
        λ j ne. ground (arith, h, f, ne, gone j),
        ground (arith, h, f, Map.get-remove SubscriptionId-discrete m.subscriptions sid sid),
      )

-- A subscription from its request to its end, on a manager in which its two request ids and the id
-- that the server chooses are new.
module _ {O S : Type 0} (m : RequestManager O S) (id u : RequestId) (sid : SubscriptionId) (o : O)
    (s : S) (unsub : String) where
  abbrev pub Fresh : Type 0
  Fresh =
      (find_request m id ≡ none)
      × (find_request m u ≡ none)
      × (id ≢ u)
      × (find_subscription m sid ≡ none)

  pub pending : RequestManager O S
  pending = (insert_pending_subscription m id u o unsub).1

  pub active : RequestManager O S
  unfolding pending
  active = (insert_subscription (complete_pending_subscription pending id).1 id u sid s unsub).1

  -- The request takes both ids; the answer gives the front end's channel back; then the
  -- subscription is found by its id, and the second request id still waits for an answer that
  -- nobody takes.
  pub active_lem :
      Fresh
      → ((complete_pending_subscription pending id).0 ≡ some (u, o, unsub))
        × (find_subscription active sid ≡ some id)
        × (find_request active id ≡ some (Kind.subscription u s unsub))
        × (find_request active u ≡ some (Kind.pending_method_call none))
  unfolding active pending
  active_lem (h, k, ne, f) =
      let (a, b, c) = insert_pending_subscription_lem m id u o unsub h k ne in
      let (r, d, e, g) = complete_pending_subscription_lem pending id u o unsub a in
      let m2 = (complete_pending_subscription pending id).1 in
      let fresh : find_subscription m2 sid ≡ none = cc (f, c, g) in
      let (q, x, y, z) = insert_subscription_lem m2 id u sid s unsub d fresh in
      (r, z, x, cc (y u ne, e u ne, b))

  -- A subscription was made with two new request ids and a new subscription id, and the front end
  -- ends it: its sink is given back, it is unknown from then on, and once the unsubscribe call is
  -- answered, the second request id is free again. The first one still stands for a call whose
  -- answer nobody takes.
  pub unsubscribe_leaves :
      Fresh
      → let (r, m4) = unsubscribe active id sid in
        let (a, m5) = complete_pending_call m4 u in
        (r ≡ some (u, s, unsub, sid))
        × (a ≡ some none)
        × (find_subscription m5 sid ≡ none)
        × (find_request m5 u ≡ none)
        × (find_request m5 id ≡ some (Kind.pending_method_call none))
  unfolding complete_pending_call
  unsubscribe_leaves fresh =
      let (r, z, x, y) = active_lem fresh in
      let (p, q, keep, gone) = unsubscribe_lem active id u sid s unsub x z in
      let m4 = (unsubscribe active id sid).1 in
      let law = Map.get-remove RequestId-discrete m4.requests u in
      let e : find_request m4 u ≡ some (Kind.pending_method_call none) = cc (keep u fresh.2, y) in
      (
        p,
        ground (arith, e),
        ground (arith, e, gone),
        ground (arith, e, law u),
        ground (arith, e, q, fresh.2, law id),
      )

  -- A subscription was made with two new request ids and a new subscription id, and the server
  -- ends it: its sink is given back, it is unknown from then on, and its request id is free again.
  -- The second request id, under which no request was sent, still stands for a call whose answer
  -- nobody takes.
  pub remove_subscription_leaves :
      Fresh
      → let (r, m4) = remove_subscription active id sid in
        (r ≡ some (u, s, unsub, sid))
        × (find_subscription m4 sid ≡ none)
        × (find_request m4 id ≡ none)
        × (find_request m4 u ≡ some (Kind.pending_method_call none))
  remove_subscription_leaves fresh =
      let (r, z, x, y) = active_lem fresh in
      let (p, q, keep, gone) = remove_subscription_lem active id u sid s unsub x z in
      (p, gone, q, cc (keep u fresh.2, y))
