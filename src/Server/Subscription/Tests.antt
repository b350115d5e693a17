-- ===== src/Server/Subscription/Tests.antt =====
-- Runs of subscriptions on small inputs.
use jsonrpseex.Prelude.{
  ℕ, ◌+◌, ◌≤◌, ◌<◌, ◌≡◌, ◌≢◌, ap, refl, arith, none, some, [], ◌∷◌, ◌++◌, true, false, length,
  ℕ_discrete,
}
use jsonrpseex.Prelude.Map
use jsonrpseex.Prelude.Map.{Map}
use jsonrpseex.Types.Result.{err}
use jsonrpseex.Types.Ids.{RequestId, SubscriptionId, SubscriptionId-discrete}
use jsonrpseex.Server.Fixtures.{rt1, queue1, open_queue}
use jsonrpseex.Server.Subscription.{
  SubscriptionKey, SubscriptionKey-discrete, PendingSubscriptionSink, SubscriptionSink, complete,
  Registry, Writers, Shared, Subscribers, register, with_table, send, unsubscribe_call,
}
use jsonrpseex.Server.Subscription.Answered.{
  accept_it, subscribe_call, expected, subscribe_call_answered,
}
use jsonrpseex.Server.Subscription.Unsubscribe.{is_subscribed, told, unsubscribe_call_lem}
use jsonrpseex.Server.Subscription.System.{
  System, Reach, start, later, subscribe, accept, init, is_held,
}
use jsonrpseex.Server.Subscription.System.Permits.{Reach-conserved, Reach-owned}

abbrev writers1 : Writers
writers1 = record {
  write_notification = λ method id j. j;
  write_error_notification = λ method id j. j;
  write_sub_id = λ r. record { pieces = (b's' ∷ []) ∷ []; complete = true };
  write_bool = λ r. record { pieces = (b'b' ∷ []) ∷ []; complete = true };
  read_sub_id = λ params. some (SubscriptionId.num 3);
}

abbrev key1 : SubscriptionKey
key1 = record { conn_id = 7; sub_id = SubscriptionId.num 3 }

-- The same subscription id on another connection.
abbrev key2 : SubscriptionKey
key2 = record { conn_id = 8; sub_id = SubscriptionId.num 3 }

abbrev pending1 : PendingSubscriptionSink
pending1 = record { method = "m"; subscribers = 0; uniq_sub = key1; id = RequestId.number 1 }

abbrev sink1 : SubscriptionSink
sink1 = record { method = "m"; subscribers = 0; uniq_sub = key1; unsubscribe = 0 }

abbrev registry0 : Registry
registry0 = record { tables = λ n. Map.empty; next_channel = 0 }

abbrev shared1 : Shared rt1 writers1 queue1
shared1 = record { queue = open_queue; registry = registry0 }

abbrev table1 : Subscribers
table1 = record { entries = (key1, 0) ∷ (key2, 1) ∷ [] }

abbrev registry1 : Registry
registry1 = record { tables = λ n. table1; next_channel = 2 }

-- A connection with one permit, after a subscribe call and after its acceptance.
abbrev called : System
called = record { free = 0; pending = pending1 ∷ []; held = []; registry = registry0 }

abbrev holding : System
holding = record {
  free = 0;
  pending = [];
  held = record { sink = (register pending1 registry0).0; clones = 0 } ∷ [];
  registry = (register pending1 registry0).1;
}

reach_called : Reach 7 1 called
unfolding init
reach_called =
    later (start registry0 (λ n k e. refl)) (subscribe (init 1 registry0) pending1 0 refl refl)

reach_holding : Reach 7 1 holding
reach_holding = later reach_called (accept called [] [] pending1 refl)

unequal : (a b : ℕ) → a < b → b ≢ a
unequal a b h e = omega (arith, h, e)

keys_differ : key2 ≢ key1
keys_differ e = unequal 7 8 (omega arith) (ap (λ k. k.conn_id) e)

subscribe_call_answered_example :
    queue1.sent (subscribe_call rt1 writers1 queue1 accept_it pending1 100 tt shared1).state.queue
    ≡ queue1.sent shared1.queue ++ expected rt1 writers1 queue1 accept_it pending1 100 ∷ []
subscribe_call_answered_example =
    subscribe_call_answered rt1 writers1 queue1 accept_it pending1 100 tt shared1 refl

Reach-conserved_example :
    (holding.free + (length holding.pending + length holding.held) ≡ 1) × (length holding.held ≤ 1)
Reach-conserved_example = Reach-conserved reach_holding

Reach-owned_example : is_held 0 key1 0 holding.held ≡ true
unfolding register Map.get Map.insert ℕ_discrete SubscriptionId-discrete
Reach-owned_example = Reach-owned 0 key1 0 reach_holding refl refl

unsubscribe_call_lem_example :
    let (rp, table') =
      unsubscribe_call rt1 writers1 queue1 (RequestId.number 2) none 7 100 tt table1 in
    let after : Shared rt1 writers1 queue1 = record {
      queue = open_queue;
      registry = with_table registry1 0 table';
    } in
    (rp ≡ told rt1 writers1 queue1 (RequestId.number 2) (is_subscribed key1 table1) 100)
    × (send rt1 writers1 queue1 sink1 (complete []) after ≡ (err (complete []), after))
    × (Map.get SubscriptionKey-discrete table' key2 ≡ Map.get SubscriptionKey-discrete table1 key2)
    × ((unsubscribe_call rt1 writers1 queue1 (RequestId.number 2) none 7 100 tt table').0
        ≡ told rt1 writers1 queue1 (RequestId.number 2) false 100)
unsubscribe_call_lem_example =
    unsubscribe_call_lem rt1 writers1 queue1 (RequestId.number 2) none (SubscriptionId.num 3) key1
      100 tt registry1 sink1 (complete []) open_queue key2 refl refl refl keys_differ
