-- ===== src/Macros/Server/Aliases.antt =====
-- The aliases that the generated calls register.
use jsonrpseex.Prelude.{String, ◌≡◌, sym, subst, ◌∙◌, some, List, [], ◌∷◌, ◌++◌}
use jsonrpseex.Server.Runtime.{Runtime}
use jsonrpseex.Server.Calls.{MethodCallback}
use jsonrpseex.Server.Methods.{method}
use jsonrpseex.Server.Module.{Table}
use jsonrpseex.Macros.Server.{
  Checked, check_names, RpcMethod, RpcSubscription, check_method_aliases,
  check_subscription_aliases, alias_calls, method_alias_calls, subscription_alias_calls, calls,
}
use jsonrpseex.Macros.Server.Steps.{
  Tracks, Grows, Grows-trans, Extends, Extends-after, Extends-nil, calls-append_ok,
}
use jsonrpseex.Macros.Server.Registered.{
  All, All-map, HasMethods, HasSubscriptions, Grows-found, check_names-errors, register_aliases,
}

module _ (rt : Runtime) (St : Type 0) (id : String → String) where
  HasAliases : List String → MethodCallback rt St → Table rt St → Type 0
  HasAliases as_ c m = All (λ (a : String). method m a ≡ some c) as_

  unfoldable pub HasMethodAliases : List (RpcMethod rt St) → Table rt St → Type 0
  unfolding HasAliases
  HasMethodAliases ms m = All (λ (x : RpcMethod rt St). HasAliases x.aliases x.callback m) ms

  unfoldable pub HasSubscriptionAliases : List (RpcSubscription rt St) → Table rt St → Type 0
  unfolding HasAliases
  HasSubscriptionAliases bs m =
      All
        (λ (b : RpcSubscription rt St).
          HasAliases b.aliases b.subscribe_callback m
          × HasAliases b.unsubscribe_aliases b.unsubscribe_callback m)
        bs

  HasAliases-Grows :
      (as_ : List String) (c : MethodCallback rt St) (m m' : Table rt St)
      → Grows rt m m'
      → HasAliases as_ c m
      → HasAliases as_ c m'
  unfolding HasAliases
  HasAliases-Grows as_ c m m' g h =
      All-map (λ a. method m a ≡ some c) (λ a. method m' a ≡ some c) as_
        (λ a e. Grows-found rt St id m m' a c g e) h

  pub HasMethods-Grows :
      (ms : List (RpcMethod rt St)) (m m' : Table rt St)
      → Grows rt m m'
      → HasMethods rt St id ms m
      → HasMethods rt St id ms m'
  unfolding HasMethods
  HasMethods-Grows ms m m' g h =
      All-map (λ x. method m (id x.name) ≡ some x.callback)
        (λ x. method m' (id x.name) ≡ some x.callback) ms
        (λ x e. Grows-found rt St id m m' (id x.name) x.callback g e) h

  pub HasSubscriptions-Grows :
      (bs : List (RpcSubscription rt St)) (m m' : Table rt St)
      → Grows rt m m'
      → HasSubscriptions rt St id bs m
      → HasSubscriptions rt St id bs m'
  unfolding HasSubscriptions
  HasSubscriptions-Grows [] m m' g h = tt
  HasSubscriptions-Grows (b ∷ bs) m m' g h = (
    (
      Grows-found rt St id m m' (id b.name) b.subscribe_callback g h.0.0,
      Grows-found rt St id m m' (id b.unsubscribe) b.unsubscribe_callback g h.0.1,
    ),
    HasSubscriptions-Grows bs m m' g h.1,
  )

  pub HasMethodAliases-Grows :
      (ms : List (RpcMethod rt St)) (m m' : Table rt St)
      → Grows rt m m'
      → HasMethodAliases ms m
      → HasMethodAliases ms m'
  unfolding HasMethodAliases
  HasMethodAliases-Grows [] m m' g h = tt
  HasMethodAliases-Grows (x ∷ ms) m m' g h =
      (HasAliases-Grows x.aliases x.callback m m' g h.0, HasMethodAliases-Grows ms m m' g h.1)

  pub check_method_aliases-errors :
      (ms : List (RpcMethod rt St)) (s : Checked)
      → (check_method_aliases rt St id ms s).errors ≡ []
      → s.errors ≡ []
  unfolding check_method_aliases
  check_method_aliases-errors [] s h = h
  check_method_aliases-errors (x ∷ ms) s h =
      check_names-errors x.aliases s (check_method_aliases-errors ms (check_names x.aliases s) h)

  pub check_subscription_aliases-errors :
      (bs : List (RpcSubscription rt St)) (s : Checked)
      → (check_subscription_aliases rt St id bs s).errors ≡ []
      → s.errors ≡ []
  unfolding check_subscription_aliases
  check_subscription_aliases-errors [] s h = h
  check_subscription_aliases-errors (b ∷ bs) s h =
      let s1 = check_names b.aliases s in
      let s2 = check_names b.unsubscribe_aliases s1 in
      check_names-errors b.aliases s
        (check_names-errors b.unsubscribe_aliases s1 (check_subscription_aliases-errors bs s2 h))

  pub register_method_aliases :
      (ms : List (RpcMethod rt St)) (s : Checked) (m : Table rt St)
      → Tracks rt s.registered m
      → (check_method_aliases rt St id ms s).errors ≡ []
      → HasMethods rt St id ms m
      → let out = calls rt St (method_alias_calls rt St id ms) m in
        Extends rt (check_method_aliases rt St id ms s).registered m out × HasMethodAliases ms out.1
  unfolding check_method_aliases method_alias_calls HasMethodAliases HasMethods
  register_method_aliases [] s m t h has = (Extends-nil rt s.registered m t, tt)
  register_method_aliases (x ∷ ms) s m t h has =
      let s1 = check_names x.aliases s in
      let e = check_method_aliases-errors ms s1 h in
      let (ex1, all1) = register_aliases rt St id x.aliases (id x.name) x.callback s m t e has.0 in
      let m1 = (calls rt St (alias_calls rt St id x.aliases (id x.name)) m).1 in
      let (ex2, all2) =
        register_method_aliases ms s1 m1 ex1.tracks h (HasMethods-Grows ms m m1 ex1.grows has.1) in
      subst
        (λ out.
          Extends rt (check_method_aliases rt St id ms s1).registered m out
          × HasMethodAliases (x ∷ ms) out.1)
        (sym (
          calls-append_ok rt (alias_calls rt St id x.aliases (id x.name))
            (method_alias_calls rt St id ms) m ex1.all_ok))
        (
          Extends-after rt _ m m1 _ ex1.grows ex2,
          (HasAliases-Grows x.aliases x.callback m1 _ ex2.grows all1, all2),
        )

  pub register_subscription_aliases :
      (bs : List (RpcSubscription rt St)) (s : Checked) (m : Table rt St)
      → Tracks rt s.registered m
      → (check_subscription_aliases rt St id bs s).errors ≡ []
      → HasSubscriptions rt St id bs m
      → let out = calls rt St (subscription_alias_calls rt St id bs) m in
        Extends rt (check_subscription_aliases rt St id bs s).registered m out
        × HasSubscriptionAliases bs out.1
  unfolding check_subscription_aliases subscription_alias_calls HasSubscriptionAliases
      HasSubscriptions
  register_subscription_aliases [] s m t h has = (Extends-nil rt s.registered m t, tt)
  register_subscription_aliases (b ∷ bs) s m t h has =
      let s1 = check_names b.aliases s in
      let s2 = check_names b.unsubscribe_aliases s1 in
      let e2 = check_subscription_aliases-errors bs s2 h in
      let e1 = check_names-errors b.unsubscribe_aliases s1 e2 in
      let sub_calls = alias_calls rt St id b.aliases (id b.name) in
      let unsub_calls = alias_calls rt St id b.unsubscribe_aliases (id b.unsubscribe) in
      let rest = subscription_alias_calls rt St id bs in
      let (ex1, all1) =
        register_aliases rt St id b.aliases (id b.name) b.subscribe_callback s m t e1 has.0.0 in
      let m1 = (calls rt St sub_calls m).1 in
      let (ex2, all2) =
        register_aliases rt St id b.unsubscribe_aliases (id b.unsubscribe) b.unsubscribe_callback s1
          m1 ex1.tracks e2
          (Grows-found rt St id m m1 (id b.unsubscribe) b.unsubscribe_callback ex1.grows has.0.1) in
      let m2 = (calls rt St unsub_calls m1).1 in
      let (ex3, all3) = register_subscription_aliases bs s2 m2 ex2.tracks h (
        HasSubscriptions-Grows bs m1 m2 ex2.grows
          (HasSubscriptions-Grows bs m m1 ex1.grows has.1)) in
      let eq =
        calls-append_ok rt sub_calls (unsub_calls ++ rest) m ex1.all_ok
        ∙ calls-append_ok rt unsub_calls rest m1 ex2.all_ok in
      subst
        (λ out.
          Extends rt (check_subscription_aliases rt St id bs s2).registered m out
          × HasSubscriptionAliases (b ∷ bs) out.1)
        (sym eq)
        (
          Extends-after rt _ m m2 _ (Grows-trans rt m m1 m2 ex1.grows ex2.grows) ex3,
          (
            (
              HasAliases-Grows b.aliases b.subscribe_callback m1 _
                  (Grows-trans rt m1 m2 _ ex2.grows ex3.grows) all1,
              HasAliases-Grows b.unsubscribe_aliases b.unsubscribe_callback m2 _ ex3.grows all2,
            ),
            all3,
          ),
        )
