-- ===== src/Macros/Server/Complete.antt =====
-- `into_rpc` as a whole.
use jsonrpseex.Prelude.{◌≡◌, sym, subst, ◌∙◌, String-discrete, [], ◌++◌, true}
use jsonrpseex.Prelude.Map
use jsonrpseex.Server.Runtime.{Runtime}
use jsonrpseex.Server.Module.{Table}
use jsonrpseex.Macros.Server.{
  Checked, RpcDescription, check_methods, check_subscriptions, check_method_aliases, method_calls,
  subscription_calls, method_alias_calls, subscription_alias_calls, calls, identifier,
  compile_errors, render_into_rpc, into_rpc,
}
use jsonrpseex.Macros.Server.Steps.{Tracks, Grows-trans, calls-append_ok}
use jsonrpseex.Macros.Server.Registered.{
  HasMethods, HasSubscriptions, check_subscriptions-errors, register_methods,
  register_subscriptions,
}
use jsonrpseex.Macros.Server.Aliases.{
  HasMethodAliases, HasSubscriptionAliases, HasMethods-Grows, HasSubscriptions-Grows,
  HasMethodAliases-Grows, check_method_aliases-errors, check_subscription_aliases-errors,
  register_method_aliases, register_subscription_aliases,
}

module _ (rt : Runtime) (St : Type 0) where
  Tracks-empty : Tracks rt {St = St} [] (record { entries = [] })
  unfolding Tracks
  Tracks-empty n c e = absurd (cc (e, Map.get-empty String-discrete n))

  -- A trait whose names make no compile error: every call that `into_rpc` makes on the new module
  -- succeeds, so that none of the ignored errors is one, and the module has each method and both
  -- methods of each subscription under their names in the namespace, and all their aliases as they
  -- are written.
  pub into_rpc_lem :
      (d : RpcDescription rt St)
      → compile_errors rt St d ≡ []
      → let (all_ok, m) = into_rpc rt St d in
        let id = identifier rt St d in
        (all_ok ≡ true)
        × HasMethods rt St id d.methods m
        × HasSubscriptions rt St id d.subscriptions m
        × HasMethodAliases rt St id d.methods m
        × HasSubscriptionAliases rt St id d.subscriptions m
  unfolding into_rpc render_into_rpc compile_errors
  into_rpc_lem d h =
      let id = identifier rt St d in
      let m0 : Table rt St = record { entries = [] } in
      let s0 : Checked = record { registered = []; errors = [] } in
      let s1 = check_methods rt St id d.methods s0 in
      let s2 = check_subscriptions rt St id d.subscriptions s1 in
      let s3 = check_method_aliases rt St id d.methods s2 in
      let e3 = check_subscription_aliases-errors rt St id d.subscriptions s3 h in
      let e2 = check_method_aliases-errors rt St id d.methods s2 e3 in
      let e1 = check_subscriptions-errors rt St id d.subscriptions s1 e2 in
      let c1 = method_calls rt St id d.methods in
      let c2 = subscription_calls rt St id d.subscriptions in
      let c3 = method_alias_calls rt St id d.methods in
      let c4 = subscription_alias_calls rt St id d.subscriptions in
      let (x1, a1) = register_methods rt St id d.methods s0 m0 Tracks-empty e1 in
      let m1 = (calls rt St c1 m0).1 in
      let (x2, a2) = register_subscriptions rt St id d.subscriptions s1 m1 x1.tracks e2 in
      let m2 = (calls rt St c2 m1).1 in
      let a1' = HasMethods-Grows rt St id d.methods m1 m2 x2.grows a1 in
      let (x3, a3) = register_method_aliases rt St id d.methods s2 m2 x2.tracks e3 a1' in
      let m3 = (calls rt St c3 m2).1 in
      let a2' = HasSubscriptions-Grows rt St id d.subscriptions m2 m3 x3.grows a2 in
      let (x4, a4) = register_subscription_aliases rt St id d.subscriptions s3 m3 x3.tracks h a2' in
      let m4 = (calls rt St c4 m3).1 in
      let eq =
        calls-append_ok rt c1 (c2 ++ (c3 ++ c4)) m0 x1.all_ok
        ∙ calls-append_ok rt c2 (c3 ++ c4) m1 x2.all_ok
        ∙ calls-append_ok rt c3 c4 m2 x3.all_ok in
      subst
        (λ out.
          (out.0 ≡ true)
          × HasMethods rt St id d.methods out.1
          × HasSubscriptions rt St id d.subscriptions out.1
          × HasMethodAliases rt St id d.methods out.1
          × HasSubscriptionAliases rt St id d.subscriptions out.1)
        (sym eq)
        (
          x4.all_ok,
          HasMethods-Grows rt St id d.methods m2 m4 (Grows-trans rt m2 m3 m4 x3.grows x4.grows) a1',
          HasSubscriptions-Grows rt St id d.subscriptions m3 m4 x4.grows a2',
          HasMethodAliases-Grows rt St id d.methods m3 m4 x4.grows a3,
          a4,
        )
