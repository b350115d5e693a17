-- ===== src/Macros/Description.antt =====
-- proc-macros/src/rpc_macro.rs: what the `rpc` macro accepts. An attribute comes as what
-- proc-macros/src/attributes.rs makes of it, if it does not refuse it; types, documentation and
-- bounds, which are copied into the output, are left out.
pub mod Accepted
use jsonrpseex.Prelude.{
  ℕ, ◌+◌, String, Option, none, some, List, [], ◌∷◌, ◌++◌, Bool, true, false, not, ◌&&◌, ◌||◌, ◌==◌,
  if◌then◌else◌, length,
}
use jsonrpseex.Macros.{build_unsubscribe_method}

pub data MacroError : Type 0 where
  attribute_refused blocking_must_be_synchronous argument_name unexpected_input : MacroError
  object_needs_one_parameter no_server_or_client client_bounds_without_client : MacroError
  server_bounds_without_server no_client_crate no_server_crate no_receiver : MacroError
  method_and_subscription neither_attribute not_a_method empty_trait : MacroError

-- What an expansion comes to.
pub data Expansion (A : Type 0) : Type 0 where
  done : A → Expansion A
  compile_error : MacroError → Expansion A
  panics : Expansion A

infixl 5 ◌>>=◌ ◌>>◌
abbrev pub ◌>>=◌ : {A B : Type 0} → Expansion A → (A → Expansion B) → Expansion B
done a >>= f = f a
compile_error e >>= f = compile_error e
panics >>= f = panics

abbrev pub ◌>>◌ : {B : Type 0} → Expansion (Unit {0}) → Expansion B → Expansion B
m >> k = m >>= λ _. k

abbrev pub guard : Bool → MacroError → Expansion (Unit {0})
guard true e = done tt
guard false e = compile_error e

pub data ParamKind : Type 0 where
  array map object : ParamKind

pub record RpcFnArg : Type 0 where
  pub arg_pat : String
  pub rename_to : Option String

-- `RpcFnArg::name`
unfoldable pub arg_name : RpcFnArg → String
arg_name a = elim a.rename_to [ none ↦ a.arg_pat | some n ↦ n ]

-- An input of a method's signature; the attribute of an argument may be refused.
pub data Input : Type 0 where
  receiver : Input
  ident : String → Option (Option String) → Input
  wild other : Input

pub record MethodAttr : Type 0 where
  pub name : String
  pub aliases : List String
  pub blocking : Bool
  pub param_kind : ParamKind
  pub with_extensions : Bool

pub record SubscriptionAttr : Type 0 where
  pub name : String
  pub notif_name_override : Option String
  pub unsubscribe : Option String
  pub aliases : List String
  pub unsubscribe_aliases : List String
  pub param_kind : ParamKind
  pub with_extensions : Bool

pub record RpcMethod : Type 0 where
  pub attr : MethodAttr
  pub is_async : Bool
  pub params : List RpcFnArg

pub record RpcSubscription : Type 0 where
  pub attr : SubscriptionAttr
  pub unsubscribe : String
  pub params : List RpcFnArg

-- An item of the trait; the attributes are there or not, and refused or not.
pub record Method : Type 0 where
  pub inputs : List Input
  pub is_async : Bool
  pub has_receiver : Bool
  pub method_attr : Option (Option MethodAttr)
  pub subscription_attr : Option (Option SubscriptionAttr)

pub data Item : Type 0 where
  fn : Method → Item
  other : Item

abbrev is_object : ParamKind → Bool
is_object object = true
is_object _ = false

accepted : {A : Type 0} → Option A → Expansion A
accepted none = compile_error attribute_refused
accepted (some a) = done a

with_arg : String → Option (Option String) → Expansion RpcFnArg
with_arg name none = compile_error attribute_refused
with_arg name (some rename) = done (record { arg_pat = name; rename_to = rename })

unfoldable pub method_params : List Input → Expansion (List RpcFnArg)
unfolding with_arg
method_params [] = done []
method_params (receiver ∷ inputs) = method_params inputs
method_params (ident name attr ∷ inputs) = do
  a ← with_arg name attr
  rest ← method_params inputs
  done (a ∷ rest)
method_params (wild ∷ inputs) = compile_error argument_name
method_params (Input.other ∷ inputs) = compile_error unexpected_input

unfoldable pub subscription_params : List Input → Expansion (List RpcFnArg)
unfolding with_arg
subscription_params [] = done []
subscription_params (receiver ∷ inputs) = subscription_params inputs
subscription_params (ident name attr ∷ inputs) = do
  a ← with_arg name attr
  rest ← subscription_params inputs
  done (a ∷ rest)
subscription_params (wild ∷ inputs) = panics
subscription_params (Input.other ∷ inputs) = panics

-- `RpcMethod::from_item`
unfoldable pub method_from_item : Option MethodAttr → Method → Expansion RpcMethod
unfolding accepted method_params
method_from_item a m = do
  attr ← accepted a
  guard (not (attr.blocking && m.is_async)) blocking_must_be_synchronous
  params ← method_params m.inputs
  guard (not (is_object attr.param_kind) || length params == 1) object_needs_one_parameter
  done (record { attr = attr; is_async = m.is_async; params = params })

or_panic : Option String → Expansion String
or_panic none = panics
or_panic (some s) = done s

unsubscribe_of : String → Option String → Expansion String
unfolding or_panic build_unsubscribe_method
unsubscribe_of name (some unsub) = done unsub
unsubscribe_of name none = or_panic (build_unsubscribe_method name)

-- `RpcSubscription::from_item`
unfoldable pub subscription_from_item : Option SubscriptionAttr → Method → Expansion RpcSubscription
unfolding accepted unsubscribe_of subscription_params
subscription_from_item a m = do
  attr ← accepted a
  unsubscribe ← unsubscribe_of attr.name attr.unsubscribe
  params ← subscription_params m.inputs
  guard (not (is_object attr.param_kind) || length params == 1) object_needs_one_parameter
  done (record { attr = attr; unsubscribe = unsubscribe; params = params })

-- The two lists that the loop over the items of the trait fills.
pub record Collected : Type 0 where
  pub methods : List RpcMethod
  pub subscriptions : List RpcSubscription

unfoldable pub by_attributes :
    Collected
    → Method
    → Option (Option MethodAttr)
    → Option (Option SubscriptionAttr)
    → Expansion Collected
unfolding method_from_item subscription_from_item
by_attributes c m none none = compile_error neither_attribute
by_attributes c m (some a) none = do
  x ← method_from_item a m
  done (record c { methods = c.methods ++ x ∷ [] })
by_attributes c m none (some b) = do
  y ← subscription_from_item b m
  done (record c { subscriptions = c.subscriptions ++ y ∷ [] })
by_attributes c m (some a) (some b) = do
  x ← method_from_item a m
  compile_error method_and_subscription

unfoldable pub collect_item : Collected → Item → Expansion Collected
unfolding by_attributes
collect_item c other = compile_error not_a_method
collect_item c (fn m) = do
  guard m.has_receiver no_receiver
  by_attributes c m m.method_attr m.subscription_attr

unfoldable pub collect_items : List Item → Collected → Expansion Collected
unfolding collect_item
collect_items [] c = done c
collect_items (i ∷ is) c = do c' ← collect_item c i; collect_items is c'

-- The arguments of the macro, and whether the crates were found that its output needs.
pub record RpcAttr : Type 0 where
  pub client : Bool
  pub server : Bool
  pub client_bounds : Bool
  pub server_bounds : Bool
  pub client_crate : Bool
  pub server_crate : Bool

abbrev pub is_empty : Collected → Bool
is_empty c = length c.methods == 0 && length c.subscriptions == 0

-- `RpcDescription::from_item`
unfoldable pub from_item : Option RpcAttr → List Item → Expansion Collected
unfolding accepted collect_items
from_item a items = do
  attr ← accepted a
  guard (attr.server || attr.client) no_server_or_client
  guard (not (attr.client_bounds && not attr.client)) client_bounds_without_client
  guard (not (attr.server_bounds && not attr.server)) server_bounds_without_server
  guard (not (attr.client && not attr.client_crate)) no_client_crate
  guard (not (attr.server && not attr.server_crate)) no_server_crate
  c ← collect_items items (record { methods = []; subscriptions = [] })
  guard (not (is_empty c)) empty_trait
  done c
