-- ===== src/Server/Subscription/Unsubscribe.antt =====
-- core/src/server/rpc_module.rs with core/src/server/subscription.rs: what an unsubscribe call does.
use jsonrpseex.Prelude.{ℕ, ◌≡◌, ◌≢◌, arith, Option, none, some, Bool, true, false}
use jsonrpseex.Prelude.Map
use jsonrpseex.Types.Result.{err}
use jsonrpseex.Types.Ids.{RequestId, SubscriptionId}
use jsonrpseex.Types.Error.{Json}
use jsonrpseex.Server.Runtime.{Runtime}
use jsonrpseex.Types.Response.{ResponsePayload}
use jsonrpseex.Server.Response.{MethodResponse, response}
use jsonrpseex.Server.Queue.{Queue}
use jsonrpseex.Server.Subscription.{
  SubscriptionKey, SubscriptionKey-discrete, SubscriptionSink, SubscriptionMessage, Subscribers,
  Registry, with_table, Writers, Shared, send, is_closed, is_active_subscription, unsubscribe_call,
}

-- Whether the key has an entry.
unfoldable pub is_subscribed : SubscriptionKey → Subscribers → Bool
unfolding SubscriptionKey-discrete
is_subscribed k t = elim (Map.get SubscriptionKey-discrete t k) [ none ↦ false | some _ ↦ true ]

module _ (rt : Runtime) (w : Writers) (q : Queue) where
  -- What the caller is told: the response with a Boolean as its result, within the limit.
  unfoldable pub told : RequestId → Bool → ℕ → MethodResponse rt
  unfolding response
  told id b max =
      response rt w.write_bool id (record { inner = ResponsePayload.success b; on_exit = none }) max

  -- An unsubscribe call whose parameters give an id is answered with whether the caller's own
  -- connection had a subscription with that id in the table of the registration. After it every
  -- sink of that subscription refuses to send, and gives the message back with nothing changed; the
  -- subscriptions with another key, such as those of other connections with the same id, are as
  -- before; and a second call is answered with false.
  pub unsubscribe_call_lem :
      (id : RequestId) (params : Option Json) (sub_id : SubscriptionId) (key : SubscriptionKey)
      (max : ℕ) (ext : rt.Ext) (r : Registry) (s : SubscriptionSink) (msg : SubscriptionMessage)
      (queue : q.Channel) (k : SubscriptionKey)
      → w.read_sub_id params ≡ some sub_id
      → key.sub_id ≡ sub_id
      → s.uniq_sub ≡ key
      → k ≢ key
      → let table = r.tables s.subscribers in
        let (rp, table') = unsubscribe_call rt w q id params key.conn_id max ext table in
        let after : Shared rt w q = record {
          queue = queue;
          registry = with_table r s.subscribers table';
        } in
        (rp ≡ told id (is_subscribed key table) max)
        × (send rt w q s msg after ≡ (err msg, after))
        × (Map.get SubscriptionKey-discrete table' k ≡ Map.get SubscriptionKey-discrete table k)
        × ((unsubscribe_call rt w q id params key.conn_id max ext table').0 ≡ told id false max)
  unfolding unsubscribe_call is_subscribed told send is_closed with_table is_active_subscription
  unsubscribe_call_lem id params sub_id key max ext r s msg queue k e f g ne =
      let table = r.tables s.subscribers in
      (
        ground (arith, e, f),
        ground (arith, e, f, g, Map.get-remove SubscriptionKey-discrete table key key),
        ground (arith, e, f, ne, Map.get-remove SubscriptionKey-discrete table key k),
        ground (arith, e, f, Map.get-remove SubscriptionKey-discrete table key key),
      )
