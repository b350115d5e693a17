-- ===== src/Server/Subscription.antt =====
-- core/src/server/subscription.rs, and the subscribe and unsubscribe callbacks that
-- core/src/server/rpc_module.rs registers: a table of subscribers for each registration, and one
-- connection's queue.
pub mod Answered
pub mod Unsubscribe
pub mod System
mod Tests
use jsonrpseex.Prelude.{
  ℕ, ◌+◌, String, Option, none, some, Bool, true, false, not, ◌||◌, ◌==◌, if◌then◌else◌, ℕ_discrete,
}
use jsonrpseex.Prelude.Map
use jsonrpseex.Prelude.Map.{Map}
use jsonrpseex.Types.Result.{Result, ok, err}
use jsonrpseex.Types.Ids.{RequestId, SubscriptionId, SubscriptionId-discrete}
use jsonrpseex.Types.Error
use jsonrpseex.Types.Error.{ErrorObject, ErrorCode, Json}
use jsonrpseex.Types.Response.{Response, ResponsePayload}
use jsonrpseex.Server.Runtime.{Runtime, Written}
use jsonrpseex.Server.Response.Kind.{MethodResponseResult, failed}
use jsonrpseex.Server.Response.{
  MethodResponse, with_extensions, error, response, subscription_error, subscription_response,
}
use jsonrpseex.Server.Queue.{Queue, TrySend}

pub record SubscriptionKey : Type 0 where
  pub conn_id : ℕ
  pub sub_id : SubscriptionId

unfoldable pub SubscriptionKey-discrete : Discrete SubscriptionKey
SubscriptionKey-discrete = hlevel (ℕ_discrete, SubscriptionId-discrete)

pub data SubscriptionMessage : Type 0 where
  complete needs_data : Json → SubscriptionMessage

-- `SubscriptionError` is the JSON text of the error.
pub data SubscriptionCloseResponse : Type 0 where
  nothing : SubscriptionCloseResponse
  notif : SubscriptionMessage → SubscriptionCloseResponse
  notif_err : Json → SubscriptionCloseResponse

pub data TrySendError : Type 0 where
  closed full : SubscriptionMessage → TrySendError

-- The table of one registration, which its subscribe and unsubscribe callbacks share. It holds, for
-- each subscriber, the only receiving half of a channel, here the channel's number. The sending half is closed when that entry is gone or replaced.
abbrev pub Subscribers : Type 0
Subscribers = Map SubscriptionKey ℕ

-- `subscribers` is the number of the registration whose table the sink shares.
pub record PendingSubscriptionSink : Type 0 where
  pub method : String
  pub subscribers : ℕ
  pub uniq_sub : SubscriptionKey
  pub id : RequestId

pub record SubscriptionSink : Type 0 where
  pub method : String
  pub subscribers : ℕ
  pub uniq_sub : SubscriptionKey
  pub unsubscribe : ℕ

-- `is_active_subscription`: the channel of the sink is the one in the table.
unfoldable pub is_active_subscription : SubscriptionSink → Subscribers → Bool
unfolding SubscriptionKey-discrete
is_active_subscription s table = elim (Map.get SubscriptionKey-discrete table s.uniq_sub) [
  | none ↦ false
  | some c ↦ c == s.unsubscribe
]

-- `Drop for SubscriptionSink`
unfoldable pub drop_sink : SubscriptionSink → Subscribers → Subscribers
unfolding is_active_subscription
drop_sink s table =
    if is_active_subscription s table
    then Map.remove SubscriptionKey-discrete table s.uniq_sub
    else table

-- The table of every registration, and the number of the next channel.
pub record Registry : Type 0 where
  pub tables : ℕ → Subscribers
  pub next_channel : ℕ

-- A change of the table of one registration.
unfoldable pub with_table : Registry → ℕ → Subscribers → Registry
with_table r n t = record r { tables = λ m. if m == n then t else r.tables m }

-- The drop of a sink, on the table that it shares.
unfoldable pub drop_from : SubscriptionSink → Registry → Registry
unfolding with_table drop_sink
drop_from s r = with_table r s.subscribers (drop_sink s (r.tables s.subscribers))

-- The removal of the unsubscribe callback, on the table of registration `n`.
unfoldable pub remove_from : ℕ → SubscriptionKey → Registry → Registry
unfolding with_table SubscriptionKey-discrete
remove_from n k r = with_table r n (Map.remove SubscriptionKey-discrete (r.tables n) k)

-- The end of `accept`: the subscription enters the table that its callback shares, with a new channel.
unfoldable pub register : PendingSubscriptionSink → Registry → SubscriptionSink × Registry
unfolding with_table SubscriptionKey-discrete
register p r =
    let sink : SubscriptionSink = record {
      method = p.method;
      subscribers = p.subscribers;
      uniq_sub = p.uniq_sub;
      unsubscribe = r.next_channel;
    } in
    let table =
      Map.insert SubscriptionKey-discrete (r.tables p.subscribers) p.uniq_sub r.next_channel in
    (sink, record (with_table r p.subscribers table) { next_channel = r.next_channel + 1 })

-- What serde_json writes, and how `params.one` reads the id in an unsubscribe call.
pub record Writers : Type 0 where
  pub write_notification : String → SubscriptionId → Json → Json
  pub write_error_notification : String → SubscriptionId → Json → Json
  pub write_sub_id : Response SubscriptionId → Written
  pub write_bool : Response Bool → Written
  pub read_sub_id : Option Json → Option SubscriptionId

-- Whether the subscribe call is given a response, or its sender is dropped.
pub data Answer (rt : Runtime) : Type 0 where
  answered : MethodResponse rt → Answer rt
  dropped : Answer rt

pub data AcceptOutcome : Type 0 where
  accepted : SubscriptionSink → AcceptOutcome
  accept_error panicked : AcceptOutcome

module _ (rt : Runtime) (w : Writers) (q : Queue) where
  -- The connection's queue and the tables of subscribers.
  pub record Shared : Type 0 where
    pub queue : q.Channel
    pub registry : Registry

  unfoldable pub sub_message_to_json : SubscriptionMessage → SubscriptionId → String → Json
  sub_message_to_json (complete msg) sub_id method = msg
  sub_message_to_json (needs_data result) sub_id method = w.write_notification method sub_id result

  unfoldable pub sub_err_to_json : Json → SubscriptionId → String → Json
  sub_err_to_json e sub_id method = w.write_error_notification method sub_id e

  -- `PendingSubscriptionSink::reject`; `waiting` tells whether the subscribe call still waits.
  unfoldable pub reject : Bool → PendingSubscriptionSink → ErrorObject → Shared → Answer rt × Shared
  unfolding subscription_error
  reject waiting p e sh =
      let r = subscription_error rt p.id e in
      (if waiting then answered r else dropped, record sh { queue = (q.send sh.queue r.json).1 })

  -- What `accept` answers.
  unfoldable pub accept_response : PendingSubscriptionSink → ℕ → MethodResponse rt
  unfolding subscription_response
  accept_response p max =
      subscription_response rt w.write_sub_id p.id
        (record { inner = ResponsePayload.success p.uniq_sub.sub_id; on_exit = none }) max

  -- `accept` once the response is sent.
  unfoldable pub enter :
      PendingSubscriptionSink → MethodResponseResult → Shared → AcceptOutcome × Shared
  unfolding register
  enter p (failed _) sh = (panicked, sh)
  enter p MethodResponseResult.success sh =
      let (sink, registry) = register p sh.registry in
      (accepted sink, record sh { registry = registry })

  answer_and_enter :
      Bool
      → PendingSubscriptionSink
      → MethodResponse rt
      → Shared
      → (AcceptOutcome × Answer rt) × Shared
  unfolding enter
  answer_and_enter false p r sh = ((accept_error, dropped), sh)
  answer_and_enter true p r sh =
      let (out, sh') = enter p r.success_or_error sh in ((out, answered r), sh')

  -- `PendingSubscriptionSink::accept`
  unfoldable pub accept :
      Bool → PendingSubscriptionSink → ℕ → Shared → (AcceptOutcome × Answer rt) × Shared
  unfolding answer_and_enter accept_response
  accept waiting p max sh =
      let r = accept_response p max in
      let (sent, queue) = q.send sh.queue r.json in
      if sent
      then answer_and_enter waiting p r (record sh { queue = queue })
      else ((accept_error, dropped), record sh { queue = queue })

  unfoldable pub is_closed : SubscriptionSink → Shared → Bool
  unfolding is_active_subscription
  is_closed s sh =
      q.is_closed sh.queue || not (is_active_subscription s (sh.registry.tables s.subscribers))

  -- `SubscriptionSink::send`: the message comes back unsent, as JSON if the queue has closed.
  unfoldable pub send :
      SubscriptionSink
      → SubscriptionMessage
      → Shared
      → Result SubscriptionMessage (Unit {0}) × Shared
  unfolding is_closed sub_message_to_json
  send s msg sh =
      let json = sub_message_to_json msg s.uniq_sub.sub_id s.method in
      let (sent, queue) = q.send sh.queue json in
      if is_closed s sh
      then (err msg, sh)
      else (if sent then ok tt else err (complete json), record sh { queue = queue })

  tried : Json → TrySend → Result TrySendError (Unit {0})
  tried json TrySend.sent_now = ok tt
  tried json TrySend.full_now = err (full (complete json))
  tried json TrySend.closed_now = err (closed (complete json))

  unfoldable pub try_send :
      SubscriptionSink → SubscriptionMessage → Shared → Result TrySendError (Unit {0}) × Shared
  unfolding is_closed sub_message_to_json tried
  try_send s msg sh =
      let json = sub_message_to_json msg s.uniq_sub.sub_id s.method in
      let (r, queue) = q.try_send sh.queue json in
      if is_closed s sh then (err (closed msg), sh) else (tried json r, record sh { queue = queue })

  -- The end of the subscribe callback, in both `register_subscription` and the raw one.
  unfoldable pub subscribe_response : RequestId → rt.Ext → Answer rt → MethodResponse rt
  unfolding Error.from_error_code
  subscribe_response id ext (answered r) = with_extensions rt r ext
  subscribe_response id ext dropped =
      with_extensions rt (error rt id (Error.from_error_code ErrorCode.internal_error)) ext

  close_with : PendingSubscriptionSink → SubscriptionCloseResponse → q.Channel → q.Channel
  unfolding sub_message_to_json sub_err_to_json
  close_with p nothing queue = queue
  close_with p (notif msg) queue =
      (q.send queue (sub_message_to_json msg p.uniq_sub.sub_id p.method)).1
  close_with p (notif_err e) queue = (q.send queue (sub_err_to_json e p.uniq_sub.sub_id p.method)).1

  is_accepted : Answer rt → Bool
  is_accepted dropped = false
  is_accepted (answered r) = elim r.success_or_error [
    | MethodResponseResult.success ↦ true
    | failed _ ↦ false
  ]

  -- The task that `register_subscription` starts: when the callback is done with `r`, and if the
  -- call was answered with success.
  unfoldable pub close_notification :
      PendingSubscriptionSink → Answer rt → SubscriptionCloseResponse → Shared → Shared
  unfolding close_with is_accepted
  close_notification p a r sh =
      if is_accepted a then record sh { queue = close_with p r sh.queue } else sh

  removed : Option ℕ → Bool
  removed none = false
  removed (some _) = true

  unsubscribe_response : RequestId → Bool → ℕ → MethodResponse rt
  unfolding response
  unsubscribe_response id b max =
      response rt w.write_bool id (record { inner = ResponsePayload.success b; on_exit = none }) max

  unsubscribe_id :
      RequestId
      → ℕ
      → ℕ
      → rt.Ext
      → Option SubscriptionId
      → Subscribers
      → MethodResponse rt × Subscribers
  unfolding unsubscribe_response removed SubscriptionKey-discrete
  unsubscribe_id id conn max ext none table =
      (with_extensions rt (unsubscribe_response id false max) ext, table)
  unsubscribe_id id conn max ext (some sub_id) table =
      let key : SubscriptionKey = record { conn_id = conn; sub_id = sub_id } in
      let result = removed (Map.get SubscriptionKey-discrete table key) in
      (unsubscribe_response id result max, Map.remove SubscriptionKey-discrete table key)

  -- The unsubscribe callback, on the table of its registration.
  unfoldable pub unsubscribe_call :
      RequestId → Option Json → ℕ → ℕ → rt.Ext → Subscribers → MethodResponse rt × Subscribers
  unfolding unsubscribe_id
  unsubscribe_call id params conn max ext table =
      unsubscribe_id id conn max ext (w.read_sub_id params) table
