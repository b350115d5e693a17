-- ===== src/Client/Manager.antt =====
-- core/src/client/async_client/manager.rs: `RequestManager`, which keeps the pending calls and the
-- active subscriptions of a connection. `O` is the type of oneshot senders, `S` of subscription
-- sinks; a method takes the manager and returns its result beside the new manager.
pub mod WellFormed
pub mod Lifecycle
use jsonrpseex.Prelude.{
  ℕ, String, Option, none, some, Bool, true, false, ◌&&◌, ite, String-discrete, ℕ_discrete,
  if◌then◌else◌,
}
use jsonrpseex.Prelude.Map
use jsonrpseex.Prelude.Map.{Map}
use jsonrpseex.Types.Result.{Result, ok, err}
use jsonrpseex.Types.Method.{RegisterMethodError, already_registered}
use jsonrpseex.Types.Ids.{RequestId, RequestId-discrete, SubscriptionId, SubscriptionId-discrete}

pub data Kind (O S : Type 0) : Type 0 where
  pending_method_call : Option O → Kind O S
  pending_subscription : RequestId → O → String → Kind O S
  subscription : RequestId → S → String → Kind O S

pub data RequestStatus : Type 0 where
  pending_method_call pending_subscription subscription invalid : RequestStatus

-- `Range<u64>`
pub record Range : Type 0 where
  pub start : ℕ
  pub end_ : ℕ

unfoldable pub Range-discrete : Discrete Range
Range-discrete = hlevel ℕ_discrete

-- `BatchState` holds the oneshot sender only.
pub record RequestManager (O S : Type 0) : Type 0 where
  pub requests : Map RequestId (Kind O S)
  pub subscriptions : Map SubscriptionId RequestId
  pub batches : Map Range O
  pub notification_handlers : Map String S

module _ {O S : Type 0} where
  abbrev pub find_request : RequestManager O S → RequestId → Option (Kind O S)
  find_request m = Map.get RequestId-discrete m.requests

  abbrev pub find_subscription : RequestManager O S → SubscriptionId → Option RequestId
  find_subscription m = Map.get SubscriptionId-discrete m.subscriptions

  abbrev pub find_batch : RequestManager O S → Range → Option O
  find_batch m = Map.get Range-discrete m.batches

  abbrev pub find_handler : RequestManager O S → String → Option S
  find_handler m = Map.get String-discrete m.notification_handlers

  abbrev pub put_request : RequestManager O S → RequestId → Kind O S → RequestManager O S
  put_request m id k = record m { requests = Map.insert RequestId-discrete m.requests id k }

  abbrev pub drop_request : RequestManager O S → RequestId → RequestManager O S
  drop_request m id = record m { requests = Map.remove RequestId-discrete m.requests id }

  abbrev pub drop_subscription : RequestManager O S → SubscriptionId → RequestManager O S
  drop_subscription m sid = record m {
    subscriptions = Map.remove SubscriptionId-discrete m.subscriptions sid;
  }

  abbrev pub put_handler : RequestManager O S → String → S → RequestManager O S
  put_handler m method s = record m {
    notification_handlers = Map.insert String-discrete m.notification_handlers method s;
  }

abbrev pub init : {O S : Type 0} → RequestManager O S
init = record {
  requests = Map.empty;
  subscriptions = Map.empty;
  batches = Map.empty;
  notification_handlers = Map.empty;
}

abbrev pub is_vacant : {A : Type 0} → Option A → Bool
is_vacant none = true
is_vacant (some _) = false

-- What `remove_subscription` and `unsubscribe` return.
abbrev pub Unsubscribed : Type 0 → Type 0 → Type 0
Unsubscribed O S = Option (RequestId × S × String × SubscriptionId) × RequestManager O S

module _ {O S : Type 0} where
  unfoldable pub insert_pending_call :
      RequestManager O S → RequestId → Option O → Result (Option O) (Unit {0}) × RequestManager O S
  insert_pending_call m id send_back =
      if is_vacant (find_request m id)
      then (ok tt, put_request m id (Kind.pending_method_call send_back))
      else (err send_back, m)

  unfoldable pub insert_pending_batch :
      RequestManager O S → Range → O → Result O (Unit {0}) × RequestManager O S
  insert_pending_batch m batch send_back =
      if is_vacant (find_batch m batch)
      then (ok tt, record m { batches = Map.insert Range-discrete m.batches batch send_back })
      else (err send_back, m)

  unfoldable pub insert_pending_subscription :
      RequestManager O S
      → RequestId
      → RequestId
      → O
      → String
      → Result O (Unit {0}) × RequestManager O S
  unfolding RequestId-discrete
  insert_pending_subscription m sub_req_id unsub_req_id send_back unsubscribe_method =
      if is_vacant (find_request m sub_req_id)
        && is_vacant (find_request m unsub_req_id)
        && ite (RequestId-discrete sub_req_id unsub_req_id) false true
      then (
        ok tt,
        put_request
            (put_request m sub_req_id
              (Kind.pending_subscription unsub_req_id send_back unsubscribe_method))
            unsub_req_id (Kind.pending_method_call none),
      )
      else (err send_back, m)

  unfoldable pub insert_subscription :
      RequestManager O S
      → RequestId
      → RequestId
      → SubscriptionId
      → S
      → String
      → Result S (Unit {0}) × RequestManager O S
  insert_subscription m sub_req_id unsub_req_id subscription_id send_back unsubscribe_method =
      if is_vacant (find_request m sub_req_id) && is_vacant (find_subscription m subscription_id)
      then (
        ok tt,
        record (put_request m sub_req_id
            (Kind.subscription unsub_req_id send_back unsubscribe_method)) {
              subscriptions =
                  Map.insert SubscriptionId-discrete m.subscriptions subscription_id sub_req_id;
            },
      )
      else (err send_back, m)

  unfoldable pub insert_notification_handler :
      RequestManager O S → String → S → Result RegisterMethodError (Unit {0}) × RequestManager O S
  insert_notification_handler m method send_back =
      if is_vacant (find_handler m method)
      then (ok tt, put_handler m method send_back)
      else (err (already_registered method), m)

  unfoldable pub remove_notification_handler :
      RequestManager O S → String → Option S × RequestManager O S
  remove_notification_handler m method = (
    find_handler m method,
    record m { notification_handlers = Map.remove String-discrete m.notification_handlers method },
  )

  -- The match on the entry of the request.
  take_subscription :
      RequestManager O S
      → RequestId
      → Option (Kind O S)
      → Option (RequestId × O × String) × RequestManager O S
  take_subscription m id (some (Kind.pending_subscription u o w)) =
      (some (u, o, w), drop_request m id)
  take_subscription m id _ = (none, m)

  unfoldable pub complete_pending_subscription :
      RequestManager O S → RequestId → Option (RequestId × O × String) × RequestManager O S
  unfolding take_subscription
  complete_pending_subscription m id = take_subscription m id (find_request m id)

  unfoldable pub complete_pending_batch : RequestManager O S → Range → Option O × RequestManager O S
  complete_pending_batch m batch = elim (find_batch m batch) [
    | none ↦ (none, m)
    | some o ↦ (some o, record m { batches = Map.remove Range-discrete m.batches batch })
  ]

  take_call :
      RequestManager O S → RequestId → Option (Kind O S) → Option (Option O) × RequestManager O S
  take_call m id (some (Kind.pending_method_call o)) = (some o, drop_request m id)
  take_call m id _ = (none, m)

  unfoldable pub complete_pending_call :
      RequestManager O S → RequestId → Option (Option O) × RequestManager O S
  unfolding take_call
  complete_pending_call m id = take_call m id (find_request m id)

  -- The match on the two entries; the entries are not compared with one another.
  remove_entries :
      RequestManager O S
      → RequestId
      → SubscriptionId
      → Option (Kind O S)
      → Option RequestId
      → Unsubscribed O S
  remove_entries m id sid (some (Kind.subscription u s w)) (some _) =
      (some (u, s, w, sid), drop_subscription (drop_request m id) sid)
  remove_entries m id sid _ _ = (none, m)

  unfoldable pub remove_subscription :
      RequestManager O S → RequestId → SubscriptionId → Unsubscribed O S
  unfolding remove_entries
  remove_subscription m id sid =
      remove_entries m id sid (find_request m id) (find_subscription m sid)

  replace_entry :
      RequestManager O S
      → RequestId
      → SubscriptionId
      → Option (Kind O S)
      → Option RequestId
      → Unsubscribed O S
  replace_entry m id sid (some (Kind.subscription u s w)) (some _) = (
    some (u, s, w, sid),
    drop_subscription (put_request m id (Kind.pending_method_call none)) sid,
  )
  replace_entry m id sid _ _ = (none, m)

  unfoldable pub unsubscribe : RequestManager O S → RequestId → SubscriptionId → Unsubscribed O S
  unfolding replace_entry
  unsubscribe m id sid = replace_entry m id sid (find_request m id) (find_subscription m sid)

  status_of : Option (Kind O S) → RequestStatus
  status_of none = RequestStatus.invalid
  status_of (some (Kind.pending_method_call _)) = RequestStatus.pending_method_call
  status_of (some (Kind.pending_subscription _ _ _)) = RequestStatus.pending_subscription
  status_of (some (Kind.subscription _ _ _)) = RequestStatus.subscription

  unfoldable pub request_status : RequestManager O S → RequestId → RequestStatus
  unfolding status_of
  request_status m id = status_of (find_request m id)

  sink_of : Option (Kind O S) → Option (RequestId × S × String)
  sink_of (some (Kind.subscription u s w)) = some (u, s, w)
  sink_of _ = none

  -- `as_subscription_mut` gives the sink, in its entry.
  unfoldable pub as_subscription : RequestManager O S → RequestId → Option (RequestId × S × String)
  unfolding sink_of
  as_subscription m id = sink_of (find_request m id)

  unfoldable pub as_notification_handler : RequestManager O S → String → Option S
  as_notification_handler m method = find_handler m method

  unfoldable pub get_request_id_by_subscription_id :
      RequestManager O S → SubscriptionId → Option RequestId
  get_request_id_by_subscription_id m sid = find_subscription m sid
