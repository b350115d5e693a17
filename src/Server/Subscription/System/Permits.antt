-- ===== src/Server/Subscription/System/Permits.antt =====
-- What holds of the subscriptions of a connection, whatever the order of its steps.
use jsonrpseex.Prelude.{
  ℕ, ◌+◌, ◌≤◌, ◌≡◌, ◌≢◌, inl, inr, ◌==◌, Bool-cases, some, true, length, arith,
}
use jsonrpseex.Prelude.Map
use jsonrpseex.Server.Subscription.{
  SubscriptionKey, SubscriptionKey-discrete, PendingSubscriptionSink, SubscriptionSink, Registry,
  Subscribers, register, with_table, drop_sink, drop_from, remove_from, is_active_subscription,
}
use jsonrpseex.Server.Subscription.System.{Elsewhere, System, Reach, is_held}
use jsonrpseex.Server.Subscription.System.Steps.{Reach-Inv}

-- In every state that a connection reaches, each permit is free, or belongs to exactly one pending
-- subscription or one accepted sink with its clones: no permit is lost, and there are never more
-- subscriptions than the maximum.
pub Reach-conserved :
    {me max : ℕ} {s : System}
    → Reach me max s
    → (s.free + (length s.pending + length s.held) ≡ max) × (length s.held ≤ max)
Reach-conserved r = let inv = Reach-Inv r in (inv.conserved, omega (arith, inv.conserved))

-- In every state that a connection reaches, each entry of the connection in the table of any
-- registration is that of an accepted sink of that registration, of which some clone is not
-- dropped yet: no entry outlives its sink.
pub Reach-owned :
    {me max : ℕ} {s : System} (n : ℕ) (k : SubscriptionKey) (c : ℕ)
    → Reach me max s
    → k.conn_id ≡ me
    → Map.get SubscriptionKey-discrete (s.registry.tables n) k ≡ some c
    → is_held n k c s.held ≡ true
Reach-owned n k c r = (Reach-Inv r).owned n k c

-- What another connection does to the tables is a step `elsewhere`.
pub register-Elsewhere :
    (me : ℕ) (p : PendingSubscriptionSink) (r : Registry)
    → p.uniq_sub.conn_id ≢ me
    → Elsewhere me r (register p r).1
unfolding register with_table
register-Elsewhere me p r other n k m = elim (Bool-cases (n == p.subscribers)) [
  | inl e ↦ ground (
    arith,
    other,
    m,
    e,
    Map.get-insert SubscriptionKey-discrete (r.tables p.subscribers) p.uniq_sub k r.next_channel,
  )
  | inr e ↦ ground (arith, e)
]

pub remove_from-Elsewhere :
    (me l : ℕ) (key : SubscriptionKey) (r : Registry)
    → key.conn_id ≢ me
    → Elsewhere me r (remove_from l key r)
unfolding remove_from with_table
remove_from-Elsewhere me l key r other n k m = elim (Bool-cases (n == l)) [
  | inl e ↦ ground (arith, other, m, e, Map.get-remove SubscriptionKey-discrete (r.tables l) key k)
  | inr e ↦ ground (arith, e)
]

pub drop_from-Elsewhere :
    (me : ℕ) (s : SubscriptionSink) (r : Registry)
    → s.uniq_sub.conn_id ≢ me
    → Elsewhere me r (drop_from s r)
unfolding drop_from with_table drop_sink
drop_from-Elsewhere me s r other n k m = elim (Bool-cases (n == s.subscribers)) [
  | inl e ↦ ground (
    arith,
    other,
    m,
    e,
    Map.get-remove SubscriptionKey-discrete (r.tables s.subscribers) s.uniq_sub k,
  )
  | inr e ↦ ground (arith, e)
]

-- The drop of any clone closes the others: no clone of the sink is active after it.
pub drop_sink-inactive :
    (s : SubscriptionSink) (t : Subscribers) → is_active_subscription s (drop_sink s t) ≢ true
unfolding drop_sink is_active_subscription
drop_sink-inactive s t =
    ground (arith, Map.get-remove SubscriptionKey-discrete t s.uniq_sub s.uniq_sub)
