-- ===== src/Macros/Server/Registered.antt =====
-- The methods, subscriptions and aliases that the generated calls register, if the names of the trait
-- make no compile error.
use jsonrpseex.Prelude.{
  String, ◌≡◌, ◌≢◌, arith, sym, subst, Option, none, some, List, [], ◌∷◌, false, String-discrete,
}
use jsonrpseex.Server.Runtime.{Runtime}
use jsonrpseex.Server.Calls.{MethodCallback}
use jsonrpseex.Server.Methods.{method}
use jsonrpseex.Server.Module.{Table}
use jsonrpseex.Macros.Server.{
  Checked, contains, check_name, check_names, RpcMethod, RpcSubscription, register, subscribe,
  alias, check_methods, check_override, check_subscription, check_subscriptions, method_calls,
  subscription_calls, alias_calls, calls,
}
use jsonrpseex.Macros.Server.Steps.{
  check_name_new, contains-cons, Tracks, Grows, free, Adds-found, Adds-Grows, Adds-Tracks,
  call-register, call-alias, call-subscribe, Grows-trans, Extends, Extends-after, Extends-nil,
  calls-cons_ok,
}

abbrev pub All {ℓ} : {A : Type ℓ} → (A → Type 0) → List A → Type 0
All P [] = Unit {0}
All P (x ∷ xs) = P x × All P xs

pub All-map {ℓ} :
    {A : Type ℓ} (P Q : A → Type 0) (xs : List A) → ((x : A) → P x → Q x) → All P xs → All Q xs
All-map P Q [] f h = tt
All-map P Q (x ∷ xs) f h = (f x h.0, All-map P Q xs f h.1)

distinct : (a b : String) (ns : List String) → contains b (a ∷ ns) ≡ false → a ≢ b
distinct a b ns h e = ground (arith, h, e, contains-cons b a ns)

keeps_free : (a b : String) (ns : List String) → contains b (a ∷ ns) ≡ false → contains b ns ≡ false
keeps_free a b ns h = elim (String-discrete a b) [
  | yes e ↦ ground (arith, h, e, contains-cons b a ns)
  | no e ↦ ground (arith, h, e, contains-cons b a ns)
]

pub check_names-errors :
    (ns : List String) (s : Checked) → (check_names ns s).errors ≡ [] → s.errors ≡ []
unfolding check_names
check_names-errors [] s h = h
check_names-errors (n ∷ ns) s h = (check_name_new n s (check_names-errors ns (check_name n s) h)).0

module _ (rt : Runtime) (St : Type 0) (id : String → String) where
  -- A check never takes an error back.
  pub check_methods-errors :
      (ms : List (RpcMethod rt St)) (s : Checked)
      → (check_methods rt St id ms s).errors ≡ []
      → s.errors ≡ []
  unfolding check_methods
  check_methods-errors [] s h = h
  check_methods-errors (x ∷ ms) s h =
      (check_name_new (id x.name) s (check_methods-errors ms (check_name (id x.name) s) h)).0

  -- The methods under their names.
  unfoldable pub HasMethods : List (RpcMethod rt St) → Table rt St → Type 0
  HasMethods ms m = All (λ (x : RpcMethod rt St). method m (id x.name) ≡ some x.callback) ms

  pub Grows-found :
      (m m' : Table rt St) (n : String) (c : MethodCallback rt St)
      → Grows rt m m'
      → method m n ≡ some c
      → method m' n ≡ some c
  unfolding Grows
  Grows-found m m' n c g e = g n c e

  pub register_methods :
      (ms : List (RpcMethod rt St)) (s : Checked) (m : Table rt St)
      → Tracks rt s.registered m
      → (check_methods rt St id ms s).errors ≡ []
      → let out = calls rt St (method_calls rt St id ms) m in
        Extends rt (check_methods rt St id ms s).registered m out × HasMethods ms out.1
  unfolding check_methods method_calls HasMethods
  register_methods [] s m t h = (Extends-nil rt s.registered m t, tt)
  register_methods (x ∷ ms) s m t h =
      let n = id x.name in
      let e = check_methods-errors ms (check_name n s) h in
      let (_, new_, r) = check_name_new n s e in
      let f = free rt s.registered m n t new_ in
      let (m', c, a) = call-register rt m n x.callback f in
      let t' : Tracks rt (check_name n s).registered m' =
        subst (λ ns. Tracks rt ns m') (sym r) (Adds-Tracks rt s.registered m m' n x.callback t a) in
      let (ex, all) = register_methods ms (check_name n s) m' t' h in
      subst
        (λ out.
          Extends rt (check_methods rt St id ms (check_name n s)).registered m out
          × HasMethods (x ∷ ms) out.1)
        (sym (calls-cons_ok rt (register n x.callback) (method_calls rt St id ms) m m' c))
        (
          Extends-after rt _ m m' _ (Adds-Grows rt m m' n x.callback f a) ex,
          (Grows-found m' _ n x.callback ex.grows (Adds-found rt m m' n x.callback a), all),
        )

  check_override-errors :
      (o : Option String) (s : Checked) → (check_override rt St id o s).errors ≡ [] → s.errors ≡ []
  unfolding check_override
  check_override-errors none s h = h
  check_override-errors (some n) s h = (check_name_new (id n) s h).0

  pub check_subscriptions-errors :
      (bs : List (RpcSubscription rt St)) (s : Checked)
      → (check_subscriptions rt St id bs s).errors ≡ []
      → s.errors ≡ []
  unfolding check_subscriptions check_subscription
  check_subscriptions-errors [] s h = h
  check_subscriptions-errors (b ∷ bs) s h =
      let s1 = check_name (id b.name) s in
      let s2 = check_name (id b.unsubscribe) s1 in
      let e = check_override-errors b.notif_name_override s2 (check_subscriptions-errors bs _ h) in
      (check_name_new (id b.name) s (check_name_new (id b.unsubscribe) s1 e).0).0

  unfoldable pub HasSubscriptions : List (RpcSubscription rt St) → Table rt St → Type 0
  HasSubscriptions bs m =
      All
        (λ (b : RpcSubscription rt St).
          (method m (id b.name) ≡ some b.subscribe_callback)
          × (method m (id b.unsubscribe) ≡ some b.unsubscribe_callback))
        bs

  check_name-Tracks :
      (n : String) (s : Checked) (m : Table rt St)
      → Tracks rt s.registered m
      → (check_name n s).errors ≡ []
      → Tracks rt (check_name n s).registered m
  unfolding Tracks
  check_name-Tracks n s m t h j c e =
      let (_, _, r) = check_name_new n s h in
      elim (String-discrete n j) [
        | yes q ↦ ground (arith, r, q, contains-cons j n s.registered)
        | no q ↦ ground (arith, r, q, contains-cons j n s.registered, t j c e)
      ]

  override-Tracks :
      (o : Option String) (s : Checked) (m : Table rt St)
      → Tracks rt s.registered m
      → (check_override rt St id o s).errors ≡ []
      → Tracks rt (check_override rt St id o s).registered m
  unfolding check_override
  override-Tracks none s m t h = t
  override-Tracks (some n) s m t h = check_name-Tracks (id n) s m t h

  Tracks-swap :
      (a b : String) (ns : List String) (m : Table rt St)
      → Tracks rt (a ∷ b ∷ ns) m
      → Tracks rt (b ∷ a ∷ ns) m
  unfolding Tracks
  Tracks-swap a b ns m t j c e = elim (String-discrete a j) [
    | yes p ↦ ground (arith, p, contains-cons j a ns, contains-cons j b (a ∷ ns))
    | no p ↦ ground (
      arith,
      p,
      t j c e,
      contains-cons j a ns,
      contains-cons j b ns,
      contains-cons j a (b ∷ ns),
      contains-cons j b (a ∷ ns),
    )
  ]

  pub register_aliases :
      (as_ : List String) (existing : String) (c : MethodCallback rt St) (s : Checked)
      (m : Table rt St)
      → Tracks rt s.registered m
      → (check_names as_ s).errors ≡ []
      → method m existing ≡ some c
      → let out = calls rt St (alias_calls rt St id as_ existing) m in
        Extends rt (check_names as_ s).registered m out × All (λ a. method out.1 a ≡ some c) as_
  unfolding check_names alias_calls
  register_aliases [] existing c s m t h g = (Extends-nil rt s.registered m t, tt)
  register_aliases (a ∷ as_) existing c s m t h g =
      let (_, new_, r) = check_name_new a s (check_names-errors as_ (check_name a s) h) in
      let f = free rt s.registered m a t new_ in
      let (m', e, add) = call-alias rt m a existing c f g in
      let grows = Adds-Grows rt m m' a c f add in
      let t' : Tracks rt (check_name a s).registered m' =
        subst (λ ns. Tracks rt ns m') (sym r) (Adds-Tracks rt s.registered m m' a c t add) in
      let (ex, all) =
        register_aliases as_ existing c (check_name a s) m' t' h
          (Grows-found m m' existing c grows g) in
      subst
        (λ out.
          Extends rt (check_names as_ (check_name a s)).registered m out
          × ((method out.1 a ≡ some c) × All (λ n. method out.1 n ≡ some c) as_))
        (sym (calls-cons_ok rt (alias a existing) (alias_calls rt St id as_ existing) m m' e))
        (
          Extends-after rt _ m m' _ grows ex,
          (Grows-found m' _ a c ex.grows (Adds-found rt m m' a c add), all),
        )

  pub register_subscriptions :
      (bs : List (RpcSubscription rt St)) (s : Checked) (m : Table rt St)
      → Tracks rt s.registered m
      → (check_subscriptions rt St id bs s).errors ≡ []
      → let out = calls rt St (subscription_calls rt St id bs) m in
        Extends rt (check_subscriptions rt St id bs s).registered m out × HasSubscriptions bs out.1
  unfolding check_subscriptions check_subscription subscription_calls HasSubscriptions
  register_subscriptions [] s m t h = (Extends-nil rt s.registered m t, tt)
  register_subscriptions (b ∷ bs) s m t h =
      let n = id b.name in
      let u = id b.unsubscribe in
      let s1 = check_name n s in
      let s2 = check_name u s1 in
      let s3 = check_override rt St id b.notif_name_override s2 in
      let e3 = check_subscriptions-errors bs s3 h in
      let e2 = check_override-errors b.notif_name_override s2 e3 in
      let (e1, new_u, r2) = check_name_new u s1 e2 in
      let (_, new_n, r1) = check_name_new n s e1 in
      let new_u' : contains u (n ∷ s.registered) ≡ false = ground (arith, new_u, r1) in
      let f = free rt s.registered m n t new_n in
      let g = free rt s.registered m u t (keeps_free n u s.registered new_u') in
      let (m1, m2, c, add_u, add_n, f1) =
        call-subscribe rt m n u b.subscribe_callback b.unsubscribe_callback f g
          (distinct n u s.registered new_u') in
      let grows_u = Adds-Grows rt m m1 u b.unsubscribe_callback g add_u in
      let grows_n = Adds-Grows rt m1 m2 n b.subscribe_callback f1 add_n in
      let t2 = Tracks-swap n u s.registered m2 (
        Adds-Tracks rt (u ∷ s.registered) m1 m2 n b.subscribe_callback
          (Adds-Tracks rt s.registered m m1 u b.unsubscribe_callback t add_u) add_n) in
      let r : u ∷ n ∷ s.registered ≡ s2.registered = ground (arith, r1, r2) in
      let t3 =
        override-Tracks b.notif_name_override s2 m2 (subst (λ ns. Tracks rt ns m2) r t2) e3 in
      let (ex, all) = register_subscriptions bs s3 m2 t3 h in
      subst
        (λ out.
          Extends rt (check_subscriptions rt St id bs s3).registered m out
          × HasSubscriptions (b ∷ bs) out.1)
        (sym (
          calls-cons_ok rt (subscribe n u b.subscribe_callback b.unsubscribe_callback)
            (subscription_calls rt St id bs) m m2 c))
        (
          Extends-after rt _ m m2 _ (Grows-trans rt m m1 m2 grows_u grows_n) ex,
          (
            (
              Grows-found m2 _ n b.subscribe_callback ex.grows (Adds-found rt m1 m2 n _ add_n),
              Grows-found m2 _ u b.unsubscribe_callback ex.grows (
                  Grows-found m1 m2 u b.unsubscribe_callback grows_n
                    (Adds-found rt m m1 u _ add_u)),
            ),
            all,
          ),
        )
