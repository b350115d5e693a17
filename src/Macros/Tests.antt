-- ===== src/Macros/Tests.antt =====
-- Runs of the macro, and its theorems at small inputs.
use jsonrpseex.Prelude.{◌≡◌, ◌<◌, ◌+◌, refl, String, none, some, [], ◌∷◌, length, true, false}
use jsonrpseex.Server.Fixtures.{rt1}
use jsonrpseex.Server.Calls.{MethodCallback, sync}
use jsonrpseex.Server.Response.{notification}
use jsonrpseex.Macros.{build_unsubscribe_method, rpc_identifier}
use jsonrpseex.Macros.Server.{RpcDescription, compile_errors, identifier, into_rpc}
use jsonrpseex.Macros.Server.Registered.{All, HasMethods, HasSubscriptions}
use jsonrpseex.Macros.Server.Aliases.{HasMethodAliases, HasSubscriptionAliases}
use jsonrpseex.Macros.Server.Complete.{into_rpc_lem}
use jsonrpseex.Macros.Description.{
  done, panics, ParamKind, MethodAttr, Input, Item, fn, Collected, RpcAttr, from_item,
}
use jsonrpseex.Macros.Description.Accepted.{IsMethod, IsSubscription, from_item_lem}

abbrev callback0 : MethodCallback rt1 (Unit {0})
callback0 = sync (λ id p n e st. (notification rt1, st))

abbrev with_alias : String → RpcDescription rt1 (Unit {0})
with_alias a = record {
  namespace = some "state";
  namespace_separator = some ".";
  methods = record { name = "get"; aliases = a ∷ []; callback = callback0 } ∷ [];
  subscriptions =
      record {
        name = "subscribe";
        notif_name_override = none;
        unsubscribe = "unsubscribe";
        aliases = [];
        unsubscribe_aliases = "stop" ∷ [];
        subscribe_callback = callback0;
        unsubscribe_callback = callback0;
      }
      ∷ [];
}

no_errors : compile_errors rt1 (Unit {0}) (with_alias "old_get") ≡ []
unfolding compile_errors rpc_identifier
no_errors = refl

-- An alias with the name of a method in the namespace is a compile error.
alias_twice : compile_errors rt1 (Unit {0}) (with_alias "state.get") ≡ "state.get" ∷ []
unfolding compile_errors rpc_identifier
alias_twice = refl

into_rpc_lem_example :
    let d = with_alias "old_get" in
    let (all_ok, m) = into_rpc rt1 (Unit {0}) d in
    let id = identifier rt1 (Unit {0}) d in
    (all_ok ≡ true)
    × HasMethods rt1 (Unit {0}) id d.methods m
    × HasSubscriptions rt1 (Unit {0}) id d.subscriptions m
    × HasMethodAliases rt1 (Unit {0}) id d.methods m
    × HasSubscriptionAliases rt1 (Unit {0}) id d.subscriptions m
into_rpc_lem_example = into_rpc_lem rt1 (Unit {0}) (with_alias "old_get") no_errors

unsubscribe_run : build_unsubscribe_method "subscribe_all" ≡ some "unsubscribe_all"
unfolding build_unsubscribe_method
unsubscribe_run = refl

abbrev attr0 : RpcAttr
attr0 = record {
  client = false;
  server = true;
  client_bounds = false;
  server_bounds = false;
  client_crate = false;
  server_crate = true;
}

abbrev method_attr0 : MethodAttr
method_attr0 = record {
  name = "get";
  aliases = [];
  blocking = true;
  param_kind = ParamKind.object;
  with_extensions = false;
}

abbrev get_item : Item
get_item = fn (record {
  inputs = Input.receiver ∷ Input.ident "key" (some none) ∷ [];
  is_async = false;
  has_receiver = true;
  method_attr = some (some method_attr0);
  subscription_attr = none;
})

abbrev collected0 : Collected
collected0 = record {
  methods =
      record {
        attr = method_attr0;
        is_async = false;
        params = record { arg_pat = "key"; rename_to = none } ∷ [];
      }
      ∷ [];
  subscriptions = [];
}

from_item_run : from_item (some attr0) (get_item ∷ []) ≡ done collected0
unfolding from_item
from_item_run = refl

from_item_lem_example :
    (0 < 1)
    × (length collected0.methods + length collected0.subscriptions ≡ 1)
    × All IsMethod collected0.methods
    × All IsSubscription collected0.subscriptions
from_item_lem_example = from_item_lem (some attr0) (get_item ∷ []) collected0 from_item_run

-- A subscription whose name does not begin with "subscribe" needs the name of its unsubscribe method.
unnamed_unsubscribe :
    from_item (some attr0) (
      fn (record {
        inputs = Input.receiver ∷ [];
        is_async = true;
        has_receiver = true;
        method_attr = none;
        subscription_attr = some (
            some (record {
              name = "watch";
              notif_name_override = none;
              unsubscribe = none;
              aliases = [];
              unsubscribe_aliases = [];
              param_kind = ParamKind.array;
              with_extensions = false;
            }));
      })
      ∷ [])
    ≡ panics
unfolding from_item
unnamed_unsubscribe = refl
