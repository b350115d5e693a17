-- ===== src/Server/Subscription/System.antt =====
-- core/src/server/subscription.rs: what happens to the subscriptions of one connection, `me`, in any
-- order, with the permits of its `BoundedSubscriptions` and the tables, one for each registration, that all connections
-- share.
pub mod Steps
pub mod Permits
use jsonrpseex.Prelude.{ℕ, suc, ◌+◌, ◌≡◌, List, [], ◌∷◌, ◌++◌, Bool, false, ◌&&◌, ◌||◌, ◌==◌, ite}
use jsonrpseex.Prelude.Map
use jsonrpseex.Types.Ids.{SubscriptionId}
use jsonrpseex.Server.Subscription.{
  SubscriptionKey, SubscriptionKey-discrete, PendingSubscriptionSink, SubscriptionSink, Registry,
  register, drop_from, remove_from,
}

-- A sink that was not dropped, and how many further clones of it there are.
pub record Held : Type 0 where
  pub sink : SubscriptionSink
  pub clones : ℕ

pub record System : Type 0 where
  pub free : ℕ
  pub pending : List PendingSubscriptionSink
  pub held : List Held
  pub registry : Registry

-- The other connections change no entry of this one.
abbrev pub Elsewhere : ℕ → Registry → Registry → Type 0
Elsewhere me r r' =
    (n : ℕ) (k : SubscriptionKey)
    → k.conn_id ≡ me
    → Map.get SubscriptionKey-discrete (r'.tables n) k
      ≡ Map.get SubscriptionKey-discrete (r.tables n) k

pub data Step (me : ℕ) : System → System → Type 0 where
  -- `RpcService::call` takes a permit for the callback.
  subscribe :
      (s : System) (p : PendingSubscriptionSink) (n : ℕ)
      → s.free ≡ suc n
      → p.uniq_sub.conn_id ≡ me
      → Step me s (record s { free = n; pending = p ∷ s.pending })
  -- `accept` succeeds; the permit goes to the sink.
  accept :
      (s : System) (before after : List PendingSubscriptionSink) (p : PendingSubscriptionSink)
      → s.pending ≡ before ++ p ∷ after
      → Step me s (record {
        free = s.free;
        pending = before ++ after;
        held = record { sink = (register p s.registry).0; clones = 0 } ∷ s.held;
        registry = (register p s.registry).1;
      })
  -- `reject`, a drop, or an `accept` that fails.
  discard :
      (s : System) (before after : List PendingSubscriptionSink) (p : PendingSubscriptionSink)
      → s.pending ≡ before ++ p ∷ after
      → Step me s (record s { free = s.free + 1; pending = before ++ after })
  clone :
      (s : System) (before after : List Held) (h : Held)
      → s.held ≡ before ++ h ∷ after
      → Step me s
          (record s { held = before ++ record { sink = h.sink; clones = suc h.clones } ∷ after })
  -- A clone is dropped while others live: they share the permit.
  drop_clone :
      (s : System) (before after : List Held) (h : Held) (n : ℕ)
      → s.held ≡ before ++ h ∷ after
      → h.clones ≡ suc n
      → Step me s (record s {
        held = before ++ record { sink = h.sink; clones = n } ∷ after;
        registry = drop_from h.sink s.registry;
      })
  drop_last :
      (s : System) (before after : List Held) (h : Held)
      → s.held ≡ before ++ h ∷ after
      → h.clones ≡ 0
      → Step me s (record s {
        free = s.free + 1;
        held = before ++ after;
        registry = drop_from h.sink s.registry;
      })
  unsubscribe :
      (s : System) (n : ℕ) (sub_id : SubscriptionId)
      → Step me s (record s {
        registry = remove_from n (record { conn_id = me; sub_id = sub_id }) s.registry;
      })
  elsewhere :
      (s : System) (r : Registry)
      → Elsewhere me s.registry r
      → Step me s (record s { registry = r })

unfoldable pub init : ℕ → Registry → System
init max r = record { free = max; pending = []; held = []; registry = r }

-- What a connection can reach, from tables that have no entry of it.
pub data Reach (me max : ℕ) : System → Type 0 where
  start :
      (r : Registry)
      → Elsewhere me (record { tables = λ n. Map.empty; next_channel = 0 }) r
      → Reach me max (init max r)
  later : {s t : System} → Reach me max s → Step me s t → Reach me max t

unfoldable pub same : ℕ → SubscriptionKey → ℕ → SubscriptionSink → Bool
unfolding SubscriptionKey-discrete
same n k c s =
    s.subscribers == n && ite (SubscriptionKey-discrete s.uniq_sub k) (s.unsubscribe == c) false

-- Whether some sink of registration `n` has this key and this channel.
unfoldable pub is_held : ℕ → SubscriptionKey → ℕ → List Held → Bool
unfolding same
is_held n k c [] = false
is_held n k c (h ∷ hs) = same n k c h.sink || is_held n k c hs
