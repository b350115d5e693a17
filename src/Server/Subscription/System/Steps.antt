-- ===== src/Server/Subscription/System/Steps.antt =====
-- Every step keeps the count of permits, and keeps a sink for each entry of the connection.
use jsonrpseex.Prelude.{
  ℕ, suc, ◌+◌, ◌≡◌, ◌≢◌, ◌⊎◌, inl, inr, Bool-cases, ◌==◌, sym, ◌∙◌, refl, arith, none, some, List,
  [], ◌∷◌, ◌++◌, true, false, ◌||◌, length, length-middle,
}
use jsonrpseex.Prelude.Map
use jsonrpseex.Server.Subscription.{
  SubscriptionKey, SubscriptionKey-discrete, PendingSubscriptionSink, SubscriptionSink, Registry,
  register, with_table, drop_sink, drop_from, remove_from, is_active_subscription, Subscribers,
}
use jsonrpseex.Server.Subscription.System.{
  Held, System, Step, subscribe, accept, discard, clone, drop_clone, drop_last, unsubscribe,
  elsewhere, init, is_held, same, Reach, start, later,
}

pub record Inv (me max : ℕ) (s : System) : Type 0 where
  pub conserved : s.free + (length s.pending + length s.held) ≡ max
  pub owned :
      (n : ℕ) (k : SubscriptionKey) (c : ℕ)
      → k.conn_id ≡ me
      → Map.get SubscriptionKey-discrete (s.registry.tables n) k ≡ some c
      → is_held n k c s.held ≡ true

is_held-middle :
    (n : ℕ) (k : SubscriptionKey) (c : ℕ) (xs : List Held) (h : Held) (ys : List Held)
    → is_held n k c (xs ++ h ∷ ys) ≡ (same n k c h.sink || is_held n k c (xs ++ ys))
unfolding is_held
is_held-middle n k c [] h ys = refl
is_held-middle n k c (x ∷ xs) h ys = ground (arith, is_held-middle n k c xs h ys)

-- A sink that is dropped does not stand for any entry that is left.
get-drop_from :
    (s : SubscriptionSink) (r : Registry) (n : ℕ) (k : SubscriptionKey) (c : ℕ)
    → Map.get SubscriptionKey-discrete ((drop_from s r).tables n) k ≡ some c
    → Map.get SubscriptionKey-discrete (r.tables n) k ≡ some c × same n k c s ≡ false
unfolding drop_from drop_sink with_table is_active_subscription same
get-drop_from s r n k c g = elim (Bool-cases (n == s.subscribers)) [
  | inl e ↦
      ground
        (arith, g, e, Map.get-remove SubscriptionKey-discrete (r.tables s.subscribers) s.uniq_sub k)
  | inr e ↦ ground (arith, g, e)
]

get-register :
    (p : PendingSubscriptionSink) (r : Registry) (n : ℕ) (k : SubscriptionKey) (c : ℕ)
    → Map.get SubscriptionKey-discrete ((register p r).1.tables n) k ≡ some c
    → Map.get SubscriptionKey-discrete (r.tables n) k ≡ some c ⊎ same n k c (register p r).0 ≡ true
unfolding register with_table same
get-register p r n k c g = elim (Bool-cases (n == p.subscribers)) [
  | inl e ↦ ground (
    arith,
    g,
    e,
    Map.get-insert SubscriptionKey-discrete (r.tables p.subscribers) p.uniq_sub k r.next_channel,
  )
  | inr e ↦ ground (arith, g, e)
]

get-remove_from :
    (l : ℕ) (key : SubscriptionKey) (r : Registry) (n : ℕ) (k : SubscriptionKey) (c : ℕ)
    → Map.get SubscriptionKey-discrete ((remove_from l key r).tables n) k ≡ some c
    → Map.get SubscriptionKey-discrete (r.tables n) k ≡ some c
unfolding remove_from with_table
get-remove_from l key r n k c g = elim (Bool-cases (n == l)) [
  | inl e ↦ ground (arith, g, e, Map.get-remove SubscriptionKey-discrete (r.tables l) key k)
  | inr e ↦ ground (arith, g, e)
]

pub Step-Inv : {me max : ℕ} {s t : System} → Step me s t → Inv me max s → Inv me max t
unfolding is_held
Step-Inv (subscribe s p n e _) inv = record {
  conserved = omega (arith, inv.conserved, e);
  owned = inv.owned;
}
Step-Inv (accept s before after p e) inv = record {
  conserved = ground (arith, inv.conserved, e, length-middle before p after);
  owned = λ n k c m g. elim (get-register p s.registry n k c g) [
    | inl old ↦ ground (arith, inv.owned n k c m old)
    | inr new ↦ ground (arith, new)
  ];
}
Step-Inv (discard s before after p e) inv = record {
  conserved = ground (arith, inv.conserved, e, length-middle before p after);
  owned = inv.owned;
}
Step-Inv (clone s before after h e) inv = record {
  conserved = ground (
    arith,
    inv.conserved,
    e,
    length-middle before h after,
    length-middle before (record { sink = h.sink; clones = suc h.clones }) after,
  );
  owned = λ n k c m g. ground (
    arith,
    inv.owned n k c m g,
    e,
    is_held-middle n k c before h after,
    is_held-middle n k c before (record { sink = h.sink; clones = suc h.clones }) after,
  );
}
Step-Inv (drop_clone s before after h l e _) inv = record {
  conserved = ground (
    arith,
    inv.conserved,
    e,
    length-middle before h after,
    length-middle before (record { sink = h.sink; clones = l }) after,
  );
  owned = λ n k c m g. ground (
    arith,
    inv.owned n k c m (get-drop_from h.sink s.registry n k c g).0,
    e,
    is_held-middle n k c before h after,
    is_held-middle n k c before (record { sink = h.sink; clones = l }) after,
  );
}
Step-Inv (drop_last s before after h e _) inv = record {
  conserved = ground (arith, inv.conserved, e, length-middle before h after);
  owned = λ n k c m g. ground (
    arith,
    inv.owned n k c m (get-drop_from h.sink s.registry n k c g).0,
    (get-drop_from h.sink s.registry n k c g).1,
    e,
    is_held-middle n k c before h after,
  );
}
Step-Inv {me} (unsubscribe s n' sub_id) inv = record {
  conserved = inv.conserved;
  owned = λ n k c m g.
      inv.owned n k c m
        (get-remove_from n' (record { conn_id = me; sub_id = sub_id }) s.registry n k c g);
}
Step-Inv (elsewhere s r e) inv = record {
  conserved = inv.conserved;
  owned = λ n k c m g. inv.owned n k c m (sym (e n k m) ∙ g);
}

absurd_some : (c : ℕ) → some c ≢ none
absurd_some c e = ground (arith, e)

nothing_yet :
    (t : Subscribers) (k : SubscriptionKey) (c : ℕ)
    → Map.get SubscriptionKey-discrete t k ≡ Map.get SubscriptionKey-discrete Map.empty k
    → Map.get SubscriptionKey-discrete t k ≢ some c
nothing_yet t k c e g = absurd_some c (sym g ∙ e ∙ Map.get-empty SubscriptionKey-discrete k)

pub Reach-Inv : {me max : ℕ} {s : System} → Reach me max s → Inv me max s
unfolding init
Reach-Inv (start r e) = record {
  conserved = omega arith;
  owned = λ n k c m g. absurd (nothing_yet (r.tables n) k c (e n k m) g);
}
Reach-Inv (later r st) = Step-Inv st (Reach-Inv r)
