-- ===== src/Macros/Server.antt =====
-- proc-macros/src/render_server.rs: `render_into_rpc`, the check of the names of a trait and the
-- function `into_rpc` that it generates.
pub mod Steps
pub mod Registered
pub mod Aliases
pub mod Complete
use jsonrpseex.Prelude.{
  String, Option, none, some, List, [], ◌∷◌, ◌++◌, map, Bool, true, false, ◌&&◌, if◌then◌else◌,
  String-discrete, ite,
}
use jsonrpseex.Prelude.Map.{Map}
use jsonrpseex.Types.Result.{Result, ok, err}
use jsonrpseex.Types.Method.{RegisterMethodError}
use jsonrpseex.Server.Runtime.{Runtime}
use jsonrpseex.Server.Calls.{MethodCallback}
use jsonrpseex.Server.Methods.{verify_and_insert, register_alias}
use jsonrpseex.Server.Module.{Table, Registration, register_subscription}
use jsonrpseex.Macros.{rpc_identifier}

-- The local variables of `check_name`: the names so far, and the compile errors, by their names.
pub record Checked : Type 0 where
  pub registered : List String
  pub errors : List String

unfoldable pub contains : String → List String → Bool
unfolding String-discrete
contains name [] = false
contains name (n ∷ ns) = ite (String-discrete n name) true (contains name ns)

unfoldable pub check_name : String → Checked → Checked
unfolding contains
check_name name s =
    if contains name s.registered
    then record s { errors = s.errors ++ name ∷ [] }
    else record s { registered = name ∷ s.registered }

unfoldable pub check_names : List String → Checked → Checked
unfolding check_name
check_names [] s = s
check_names (n ∷ ns) s = check_names ns (check_name n s)

module _ (rt : Runtime) (St : Type 0) where
  -- A method of the trait, with the callback that the generated call registers for it; its kind is
  -- that of the callback.
  pub record RpcMethod : Type 0 where
    pub name : String
    pub aliases : List String
    pub callback : MethodCallback rt St

  pub record RpcSubscription : Type 0 where
    pub name : String
    pub notif_name_override : Option String
    pub unsubscribe : String
    pub aliases : List String
    pub unsubscribe_aliases : List String
    pub subscribe_callback : MethodCallback rt St
    pub unsubscribe_callback : MethodCallback rt St

  pub record RpcDescription : Type 0 where
    pub namespace : Option String
    pub namespace_separator : Option String
    pub methods : List RpcMethod
    pub subscriptions : List RpcSubscription

  -- A generated call on the module.
  pub data Call : Type 0 where
    register : String → MethodCallback rt St → Call
    subscribe : String → String → MethodCallback rt St → MethodCallback rt St → Call
    alias : String → String → Call

  module _ (id : String → String) where
    unfoldable pub check_methods : List RpcMethod → Checked → Checked
    unfolding check_name
    check_methods [] s = s
    check_methods (m ∷ ms) s = check_methods ms (check_name (id m.name) s)

    unfoldable pub check_override : Option String → Checked → Checked
    unfolding check_name
    check_override none s = s
    check_override (some notif) s = check_name (id notif) s

    unfoldable pub check_subscription : RpcSubscription → Checked → Checked
    unfolding check_name check_override
    check_subscription b s =
        check_override b.notif_name_override
          (check_name (id b.unsubscribe) (check_name (id b.name) s))

    unfoldable pub check_subscriptions : List RpcSubscription → Checked → Checked
    unfolding check_subscription
    check_subscriptions [] s = s
    check_subscriptions (b ∷ bs) s = check_subscriptions bs (check_subscription b s)

    -- The aliases are not put into the namespace.
    unfoldable pub check_method_aliases : List RpcMethod → Checked → Checked
    unfolding check_names
    check_method_aliases [] s = s
    check_method_aliases (m ∷ ms) s = check_method_aliases ms (check_names m.aliases s)

    unfoldable pub check_subscription_aliases : List RpcSubscription → Checked → Checked
    unfolding check_names
    check_subscription_aliases [] s = s
    check_subscription_aliases (b ∷ bs) s =
        check_subscription_aliases bs (check_names b.unsubscribe_aliases (check_names b.aliases s))

    unfoldable pub method_calls : List RpcMethod → List Call
    method_calls [] = []
    method_calls (m ∷ ms) = register (id m.name) m.callback ∷ method_calls ms

    unfoldable pub subscription_calls : List RpcSubscription → List Call
    subscription_calls [] = []
    subscription_calls (b ∷ bs) =
        subscribe (id b.name) (id b.unsubscribe) b.subscribe_callback b.unsubscribe_callback
        ∷ subscription_calls bs

    unfoldable pub alias_calls : List String → String → List Call
    alias_calls [] existing = []
    alias_calls (a ∷ as_) existing = alias a existing ∷ alias_calls as_ existing

    unfoldable pub method_alias_calls : List RpcMethod → List Call
    unfolding alias_calls
    method_alias_calls [] = []
    method_alias_calls (m ∷ ms) = alias_calls m.aliases (id m.name) ++ method_alias_calls ms

    unfoldable pub subscription_alias_calls : List RpcSubscription → List Call
    unfolding alias_calls
    subscription_alias_calls [] = []
    subscription_alias_calls (b ∷ bs) =
        alias_calls b.aliases (id b.name)
        ++ (alias_calls b.unsubscribe_aliases (id b.unsubscribe) ++ subscription_alias_calls bs)

  abbrev pub identifier : RpcDescription → String → String
  identifier d = rpc_identifier d.namespace d.namespace_separator

  -- The names that are defined twice, which are compile errors.
  unfoldable pub compile_errors : RpcDescription → List String
  unfolding check_methods check_subscriptions check_method_aliases check_subscription_aliases
  compile_errors d =
      let id = identifier d in
      (check_subscription_aliases id d.subscriptions (
        check_method_aliases id d.methods (
          check_subscriptions id d.subscriptions
            (check_methods id d.methods (record { registered = []; errors = [] }))))).errors

  unfoldable pub render_into_rpc : RpcDescription → List Call
  unfolding method_calls subscription_calls method_alias_calls subscription_alias_calls
  render_into_rpc d =
      let id = identifier d in
      method_calls id d.methods
      ++ (subscription_calls id d.subscriptions
          ++ (method_alias_calls id d.methods ++ subscription_alias_calls id d.subscriptions))

  unfoldable pub call : Call → Table rt St → Registration rt St
  unfolding verify_and_insert register_subscription register_alias
  call (register name callback) m = verify_and_insert m name callback
  call (subscribe name unsubscribe sub unsub) m =
      register_subscription rt m name unsubscribe sub unsub
  call (alias a existing) m = register_alias m a existing

  -- `handle_register_result`: whether the call was not an error; with debug assertions an error
  -- panics, and else it is ignored.
  abbrev is_ok : Result RegisterMethodError (Unit {0}) → Bool
  is_ok (ok _) = true
  is_ok (err _) = false

  -- Whether all calls succeed, and the table.
  unfoldable pub calls : List Call → Table rt St → Bool × Table rt St
  unfolding call
  calls [] m = (true, m)
  calls (c ∷ cs) m =
      let (r, m') = call c m in let (rest, m'') = calls cs m' in (is_ok r && rest, m'')

  -- `into_rpc`, on a new module.
  unfoldable pub into_rpc : RpcDescription → Bool × Table rt St
  unfolding calls render_into_rpc
  into_rpc d = calls (render_into_rpc d) (record { entries = [] })
