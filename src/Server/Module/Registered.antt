-- ===== src/Server/Module/Registered.antt =====
-- What is registered is what runs.
use jsonrpseex.Prelude.{
  ◌≡◌, ◌≢◌, ◌⊎◌, inl, inr, refl, arith, ap, String, Option, none, some, Option-cases,
  String-discrete, ite, if_pos, ◌∙◌,
}
use jsonrpseex.Prelude.Map
use jsonrpseex.Prelude.Map.{Map}
use jsonrpseex.Types.Result.{ok, err}
use jsonrpseex.Types.Error.{Json}
use jsonrpseex.Types.Response.{Response}
use jsonrpseex.Types.Method.{RegisterMethodError, already_registered, subscription_name_conflict}
use jsonrpseex.Server.Runtime.{Runtime, Written}
use jsonrpseex.Server.Response.{Payload, with_extensions, response}
use jsonrpseex.Server.Methods.{
  method, verify_method_name, verify_and_insert, verify_and_register_unsubscribe,
}
use jsonrpseex.Server.Rpc.{Request}
use jsonrpseex.Server.Calls.{sync, MethodCallback, RpcService, Connection, service_call}
use jsonrpseex.Server.Module.{Table, respond, register_method, register_subscription}

module _ (rt : Runtime) {St : Type 0} where
  inserted :
      (m : Table rt St) (name : String) (callback : MethodCallback rt St)
      → method m name ≡ none
      → method (verify_and_insert m name callback).1 name ≡ some callback
  unfolding verify_and_insert
  inserted m name callback free_ = ground (
    arith,
    free_,
    Map.get-insert String-discrete m name name callback,
    if_pos (String-discrete name name) refl (some callback) (method m name),
  )

  -- A method that is registered under a name that was free answers each call of that name: the
  -- response is that of the callback's payload with the id of the call and its extensions, within
  -- the limit of the service, and the callback's effect is the only one on the connection.
  pub register_method-service_call :
      {R : Type 0} (write : Response R → Written) (m : Table rt St) (name : String)
      (callback : Option Json → rt.Ext → St → Payload rt R × St) (s : RpcService rt St)
      (req : Request rt) (c : Connection St)
      → method m name ≡ none
      → s.methods ≡ (register_method rt write m name callback).1
      → req.method ≡ name
      → let (rp, app) = callback req.params req.extensions c.app in
        service_call rt s req c ≡ (
          with_extensions rt (response rt write req.id rp s.max_response_body_size) req.extensions,
          record c { app = app },
        )
  unfolding register_method verify_and_insert service_call respond
  register_method-service_call write m name callback s req c free_ t n =
      let callback' =
        sync (λ id params max ext st. respond rt write id max ext (callback params ext st)) in
      let found : method s.methods req.method ≡ some callback' =
        ap (λ k. method s.methods k) n
        ∙ ap (λ x. method x name) t
        ∙ inserted m name callback' free_ in
      rw found

  -- Registering a subscription is all or nothing: either both names were free and different, and the
  -- table has the two callbacks under them and is as before under every other name; or there is an
  -- error and the table is as before.
  pub register_subscription_lem :
      (m : Table rt St) (subscribe_name unsubscribe_name : String)
      (subscribe_callback unsubscribe_callback : MethodCallback rt St) (n : String)
      → let (r, m') =
          register_subscription rt m subscribe_name unsubscribe_name subscribe_callback
            unsubscribe_callback in
        ((r ≡ ok tt)
          × (subscribe_name ≢ unsubscribe_name)
          × (method m subscribe_name ≡ none)
          × (method m unsubscribe_name ≡ none)
          × (method m' n
              ≡ ite (String-discrete subscribe_name n) (some subscribe_callback) (
                  ite
                    (String-discrete unsubscribe_name n)
                    (some unsubscribe_callback)
                    (method m n))))
        ⊎ (((e : RegisterMethodError) × (r ≡ err e)) × (m' ≡ m))
  unfolding register_subscription verify_and_register_unsubscribe verify_method_name
      verify_and_insert
  register_subscription_lem m sn un sc uc n = elim (String-discrete sn un) [
    | yes same ↦ inr ((subscription_name_conflict sn, ground (arith, same)), ground (arith, same))
    | no other ↦ elim (Option-cases (method m sn)) [
      | inr (c, f) ↦
          inr ((already_registered sn, ground (arith, other, f)), ground (arith, other, f))
      | inl f ↦ elim (Option-cases (method m un)) [
        | inr (c, g) ↦
            inr ((already_registered un, ground (arith, other, f, g)), ground (arith, other, f, g))
        | inl g ↦ inl (
          ground (arith, other, f, g, Map.get-insert String-discrete m un sn uc),
          other,
          f,
          g,
          ground (
            arith,
            other,
            f,
            g,
            Map.get-insert String-discrete m un sn uc,
            Map.get-insert String-discrete m un n uc,
            Map.get-insert String-discrete (Map.insert String-discrete m un uc) sn n sc,
          ),
        )
      ]
    ]
  ]
