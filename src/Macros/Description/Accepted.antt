-- ===== src/Macros/Description/Accepted.antt =====
-- What an accepted trait looks like.
use jsonrpseex.Prelude.{
  ℕ, ◌+◌, suc, ◌≡◌, ◌<◌, refl, subst, arith, Option, none, some, List, [], ◌∷◌, ◌++◌, true, false,
  length, length-append,
}
use jsonrpseex.Macros.Description.{
  Expansion, done, compile_error, panics, object, MethodAttr, SubscriptionAttr, RpcMethod,
  RpcSubscription, Method, Item, fn, Collected, RpcAttr, method_from_item, subscription_from_item,
  collect_item, collect_items, from_item, by_attributes, guard, is_empty, no_receiver,
  method_and_subscription, ◌>>=◌,
}
use jsonrpseex.Macros.Server.Registered.{All}

abbrev pub IsMethod : RpcMethod → Type 0
IsMethod x =
    (x.attr.blocking ≡ true → x.is_async ≡ false)
    × (x.attr.param_kind ≡ object → length x.params ≡ 1)

abbrev pub IsSubscription : RpcSubscription → Type 0
IsSubscription y = y.attr.param_kind ≡ object → length y.params ≡ 1

method_from_item-IsMethod :
    (a : Option MethodAttr) (m : Method) (x : RpcMethod)
    → method_from_item a m ≡ done x
    → IsMethod x
unfolding method_from_item
method_from_item-IsMethod none m x h = absurd (cc h)
method_from_item-IsMethod (some a) m x h = (λ b. ground (arith, b, h), λ k. ground (arith, k, h))

subscription_from_item-IsSubscription :
    (b : Option SubscriptionAttr) (m : Method) (y : RpcSubscription)
    → subscription_from_item b m ≡ done y
    → IsSubscription y
unfolding subscription_from_item
subscription_from_item-IsSubscription none m y h k = absurd (cc h)
subscription_from_item-IsSubscription (some b) m y h k = ground (arith, k, h)

All-last :
    {A : Type 0} (P : A → Type 0) (xs : List A) (x : A) → All P xs → P x → All P (xs ++ x ∷ [])
All-last P [] x h p = (p, tt)
All-last P (y ∷ xs) x h p = (h.0, All-last P xs x h.1 p)

-- What the loop has collected from so many items.
record IsCollected (n : ℕ) (c : Collected) : Type 0 where
  methods : All IsMethod c.methods
  subscriptions : All IsSubscription c.subscriptions
  count : length c.methods + length c.subscriptions ≡ n

>>=-eq-done :
    {A B : Type 0} (x : Expansion A) (f : A → Expansion B) (b : B)
    → (x >>= f) ≡ done b
    → (a : A) × (x ≡ done a) × (f a ≡ done b)
>>=-eq-done (done a) f b h = (a, refl, h)
>>=-eq-done (compile_error e) f b h = absurd (cc h)
>>=-eq-done panics f b h = absurd (cc h)

by_attributes-IsCollected :
    (n : ℕ) (c c' : Collected) (m : Method) (a : Option (Option MethodAttr))
    (b : Option (Option SubscriptionAttr))
    → IsCollected n c
    → by_attributes c m a b ≡ done c'
    → IsCollected (suc n) c'
unfolding by_attributes
by_attributes-IsCollected n c c' m none none k h = absurd (cc h)
by_attributes-IsCollected n c c' m (some a) none k h =
    let (x, e, h') =
      >>=-eq-done (method_from_item a m) (λ x. done (record c { methods = c.methods ++ x ∷ [] })) c'
        h in
    subst (IsCollected (suc n)) (cc h') (record {
      methods = All-last IsMethod c.methods x k.methods (method_from_item-IsMethod a m x e);
      subscriptions = k.subscriptions;
      count = omega (arith, k.count, length-append c.methods (x ∷ []));
    })
by_attributes-IsCollected n c c' m none (some b) k h =
    let (y, e, h') =
      >>=-eq-done (subscription_from_item b m)
        (λ y. done (record c { subscriptions = c.subscriptions ++ y ∷ [] })) c' h in
    subst (IsCollected (suc n)) (cc h') (record {
      methods = k.methods;
      subscriptions =
          All-last IsSubscription c.subscriptions y k.subscriptions
            (subscription_from_item-IsSubscription b m y e);
      count = omega (arith, k.count, length-append c.subscriptions (y ∷ []));
    })
by_attributes-IsCollected n c c' m (some a) (some b) k h =
    let (x, e, h') =
      >>=-eq-done {B = Collected} (method_from_item a m)
        (λ x. compile_error method_and_subscription) c' h in
    absurd (cc h')

collect_item-IsCollected :
    (n : ℕ) (c c' : Collected) (i : Item)
    → IsCollected n c
    → collect_item c i ≡ done c'
    → IsCollected (suc n) c'
unfolding collect_item
collect_item-IsCollected n c c' Item.other k h = absurd (cc h)
collect_item-IsCollected n c c' (fn m) k h =
    let (u, e, h') =
      >>=-eq-done (guard m.has_receiver no_receiver)
        (λ u. by_attributes c m m.method_attr m.subscription_attr) c' h in
    by_attributes-IsCollected n c c' m m.method_attr m.subscription_attr k h'

collect_items-IsCollected :
    (n : ℕ) (c c' : Collected) (is : List Item)
    → IsCollected n c
    → collect_items is c ≡ done c'
    → IsCollected (n + length is) c'
unfolding collect_items
collect_items-IsCollected n c c' [] k h =
    subst (λ j. IsCollected j c') (omega arith) (subst (IsCollected n) (cc h) k)
collect_items-IsCollected n c c' (i ∷ is) k h =
    let (c1, e, h') = >>=-eq-done (collect_item c i) (λ x. collect_items is x) c' h in
    subst (λ j. IsCollected j c') (omega arith)
      (collect_items-IsCollected (suc n) c1 c' is (collect_item-IsCollected n c c1 i k e) h')

-- A trait that the macro accepts, for a client or a server: it has at least one item, each of its
-- items is one method or one subscription, no blocking method is asynchronous, and whatever takes
-- its parameters as one object has exactly one parameter.
pub from_item_lem :
    (a : Option RpcAttr) (items : List Item) (c : Collected)
    → from_item a items ≡ done c
    → (0 < length items)
      × (length c.methods + length c.subscriptions ≡ length items)
      × All IsMethod c.methods
      × All IsSubscription c.subscriptions
unfolding from_item
from_item_lem none items c h = absurd (cc h)
from_item_lem (some attr) items c h =
    let start : Collected = record { methods = []; subscriptions = [] } in
    let e : collect_items items start ≡ done c = ground (arith, h) in
    let k =
      collect_items-IsCollected 0 start c items
        (record { methods = tt; subscriptions = tt; count = omega arith }) e in
    let filled : is_empty c ≡ false = ground (arith, h, e) in
    (ground (arith, filled, k.count), omega (arith, k.count), k.methods, k.subscriptions)
