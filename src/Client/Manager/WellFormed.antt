-- ===== src/Client/Manager/WellFormed.antt =====
-- The two maps of a manager agree: each subscription id stands for one active subscription, and
-- each active subscription has one id. Every operation of the manager keeps this, provided that
-- `remove_subscription` and `unsubscribe` are called with a request id that was looked up.
use jsonrpseex.Prelude.{
  ◌≡◌, inl, inr, Bool-cases, sym, ◌∙◌, Option, none, some, Bool, true, false, arith, String,
}
use jsonrpseex.Prelude.Map
use jsonrpseex.Types.Ids.{RequestId, RequestId-discrete, SubscriptionId, SubscriptionId-discrete}
use jsonrpseex.Client.Manager.{
  RequestManager, Kind, Range, init, find_request, find_subscription, insert_pending_call,
  insert_pending_batch, insert_pending_subscription, insert_subscription, remove_subscription,
  unsubscribe, complete_pending_call, complete_pending_subscription, complete_pending_batch,
  insert_notification_handler, remove_notification_handler,
}

abbrev pub is_active : {O S : Type 0} → Option (Kind O S) → Bool
is_active (some (Kind.subscription _ _ _)) = true
is_active _ = false

pub record IsWellFormed {O S : Type 0} (m : RequestManager O S) : Type 0 where
  pub backed :
      (s : SubscriptionId) (r : RequestId)
      → find_subscription m s ≡ some r
      → is_active (find_request m r) ≡ true
  pub injective :
      (s t : SubscriptionId) (r : RequestId)
      → find_subscription m s ≡ some r
      → find_subscription m t ≡ some r
      → s ≡ t
  pub named :
      (r : RequestId)
      → is_active (find_request m r) ≡ true
      → (s : SubscriptionId) × (find_subscription m s ≡ some r)

pub init-IsWellFormed : {O S : Type 0} → IsWellFormed (init {O = O} {S = S})
unfolding Map.get
init-IsWellFormed = record { backed = λ s r h. cc; injective = λ s t r h k. cc; named = λ r h. cc }

module _ {O S : Type 0} where
  -- What a step that leaves the active subscriptions alone has to show.
  pub keep :
      (m m' : RequestManager O S)
      → IsWellFormed m
      → m'.subscriptions ≡ m.subscriptions
      → ((r : RequestId) → is_active (find_request m' r) ≡ is_active (find_request m r))
      → IsWellFormed m'
  keep m m' wf same act = record {
    backed = λ s r h. act r ∙ wf.backed s r (rw same at h);
    injective = λ s t r h k. wf.injective s t r (rw same at h) (rw same at k);
    named = λ r h. rw same (wf.named r (sym (act r) ∙ h));
  }

module _ {O S : Type 0} (m : RequestManager O S) (wf : IsWellFormed m) where
  pub insert_pending_call-IsWellFormed :
      (id : RequestId) (o : Option O) → IsWellFormed (insert_pending_call m id o).1
  unfolding insert_pending_call
  insert_pending_call-IsWellFormed id o = keep m _ wf (ground arith) λ r.
      ground (arith, Map.get-insert RequestId-discrete m.requests id r (Kind.pending_method_call o))

  pub insert_pending_batch-IsWellFormed :
      (batch : Range) (o : O) → IsWellFormed (insert_pending_batch m batch o).1
  unfolding insert_pending_batch
  insert_pending_batch-IsWellFormed batch o = keep m _ wf (ground arith) λ r. ground arith

  pub insert_pending_subscription-IsWellFormed :
      (id u : RequestId) (o : O) (w : String)
      → IsWellFormed (insert_pending_subscription m id u o w).1
  unfolding insert_pending_subscription
  insert_pending_subscription-IsWellFormed id u o w = keep m _ wf (ground arith) λ r. ground (
    arith,
    Map.get-insert RequestId-discrete m.requests id r (Kind.pending_subscription u o w),
    Map.get-insert RequestId-discrete
        (Map.insert RequestId-discrete m.requests id (Kind.pending_subscription u o w)) u r
        (Kind.pending_method_call none),
  )

  pub insert_notification_handler-IsWellFormed :
      (method : String) (s : S) → IsWellFormed (insert_notification_handler m method s).1
  unfolding insert_notification_handler
  insert_notification_handler-IsWellFormed method s = keep m _ wf (ground arith) λ r. ground arith

  pub remove_notification_handler-IsWellFormed :
      (method : String) → IsWellFormed (remove_notification_handler m method).1
  unfolding remove_notification_handler
  remove_notification_handler-IsWellFormed method = keep m _ wf (ground arith) λ r. ground arith

  pub complete_pending_batch-IsWellFormed :
      (batch : Range) → IsWellFormed (complete_pending_batch m batch).1
  unfolding complete_pending_batch
  complete_pending_batch-IsWellFormed batch = keep m _ wf (ground arith) λ r. ground arith

  pub complete_pending_call-IsWellFormed :
      (id : RequestId) → IsWellFormed (complete_pending_call m id).1
  unfolding complete_pending_call
  complete_pending_call-IsWellFormed id =
      keep m _ wf (ground arith)
        λ r. ground (arith, Map.get-remove RequestId-discrete m.requests id r)

  pub complete_pending_subscription-IsWellFormed :
      (id : RequestId) → IsWellFormed (complete_pending_subscription m id).1
  unfolding complete_pending_subscription
  complete_pending_subscription-IsWellFormed id =
      keep m _ wf (ground arith)
        λ r. ground (arith, Map.get-remove RequestId-discrete m.requests id r)

  -- The id that the server chose is new, or nothing is inserted.
  pub insert_subscription-IsWellFormed :
      (id u : RequestId) (sid : SubscriptionId) (s : S) (w : String)
      → IsWellFormed (insert_subscription m id u sid s w).1
  unfolding insert_subscription
  insert_subscription-IsWellFormed id u sid s w = record {
    backed = λ t r h. ground (
      arith,
      wf.backed t r,
      Map.get-insert RequestId-discrete m.requests id r (Kind.subscription u s w),
      Map.get-insert SubscriptionId-discrete m.subscriptions sid t id,
    );
    injective = λ t t' r h k. ground (
      arith,
      wf.injective t t' r,
      wf.backed t r,
      wf.backed t' r,
      Map.get-insert SubscriptionId-discrete m.subscriptions sid t id,
      Map.get-insert SubscriptionId-discrete m.subscriptions sid t' id,
    );
    named = λ r h. elim (Bool-cases (is_active (find_request m r))) [
      | inl old ↦
          let (t, found) = wf.named r old in
          (t, ground (arith, Map.get-insert SubscriptionId-discrete m.subscriptions sid t id))
      | inr new ↦ (
        sid,
        ground (
          arith,
          Map.get-insert RequestId-discrete m.requests id r (Kind.subscription u s w),
          Map.get-insert SubscriptionId-discrete m.subscriptions sid sid id,
        ),
      )
    ];
  }

  -- With a request id that was looked up by the subscription id.
  pub remove_subscription-IsWellFormed :
      (id : RequestId) (sid : SubscriptionId)
      → find_subscription m sid ≡ some id
      → IsWellFormed (remove_subscription m id sid).1
  unfolding remove_subscription
  remove_subscription-IsWellFormed id sid e = record {
    backed = λ t r h. ground (
      arith,
      wf.backed t r,
      wf.backed sid id,
      wf.injective t sid r,
      Map.get-remove RequestId-discrete m.requests id r,
      Map.get-remove SubscriptionId-discrete m.subscriptions sid t,
    );
    injective = λ t t' r h k. ground (
      arith,
      wf.backed sid id,
      wf.injective t t' r,
      Map.get-remove SubscriptionId-discrete m.subscriptions sid t,
      Map.get-remove SubscriptionId-discrete m.subscriptions sid t',
    );
    named = λ r h.
        let law = Map.get-remove RequestId-discrete m.requests id r in
        let (t, found) = wf.named r (ground (arith, law)) in
        (
          t,
          ground (
            arith,
            law,
            wf.backed sid id,
            Map.get-remove SubscriptionId-discrete m.subscriptions sid t,
          ),
        );
  }

  pub unsubscribe-IsWellFormed :
      (id : RequestId) (sid : SubscriptionId)
      → find_subscription m sid ≡ some id
      → IsWellFormed (unsubscribe m id sid).1
  unfolding unsubscribe
  unsubscribe-IsWellFormed id sid e = record {
    backed = λ t r h. ground (
      arith,
      wf.backed t r,
      wf.backed sid id,
      wf.injective t sid r,
      Map.get-insert RequestId-discrete m.requests id r (Kind.pending_method_call none),
      Map.get-remove SubscriptionId-discrete m.subscriptions sid t,
    );
    injective = λ t t' r h k. ground (
      arith,
      wf.backed sid id,
      wf.injective t t' r,
      Map.get-remove SubscriptionId-discrete m.subscriptions sid t,
      Map.get-remove SubscriptionId-discrete m.subscriptions sid t',
    );
    named = λ r h.
        let law =
          Map.get-insert RequestId-discrete m.requests id r (Kind.pending_method_call none) in
        let (t, found) = wf.named r (ground (arith, law)) in
        (
          t,
          ground (
            arith,
            law,
            wf.backed sid id,
            Map.get-remove SubscriptionId-discrete m.subscriptions sid t,
          ),
        );
  }
