-- ===== src/Server/Module/Tests.antt =====
-- Small tables of methods.
use jsonrpseex.Prelude.Map
use jsonrpseex.Prelude.{
  ◌≡◌, ◌≢◌, ◌⊎◌, refl, Option, none, some, [], ◌∷◌, String, String-discrete, ite, ℕ, suc, true,
}
use jsonrpseex.Types.Result.{ok, err}
use jsonrpseex.Types.Ids.{RequestId}
use jsonrpseex.Types.Error.{Json}
use jsonrpseex.Types.Response
use jsonrpseex.Types.Response.{Response}
use jsonrpseex.Types.Method.{RegisterMethodError}
use jsonrpseex.Server.Runtime.{Written}
use jsonrpseex.Server.Response.{Payload, notification, with_extensions, response}
use jsonrpseex.Server.Methods.{method}
use jsonrpseex.Server.Rpc.{Request}
use jsonrpseex.Server.Calls.{MethodCallback, sync, RpcService, only_calls, service_call}
use jsonrpseex.Server.Fixtures.{rt1}
use jsonrpseex.Server.Module.{Table, register_method, register_subscription}
use jsonrpseex.Server.Module.Registered.{register_method-service_call, register_subscription_lem}

abbrev empty : Table rt1 ℕ
empty = record { entries = [] }

abbrev write0 : Response ℕ → Written
write0 r = record { pieces = (b'r' ∷ []) ∷ []; complete = true }

-- The state is a counter, which the callback raises and returns.
abbrev next_number : Option Json → Unit {0} → ℕ → Payload rt1 ℕ × ℕ
next_number params ext n =
    (record { inner = Response.ResponsePayload.success n; on_exit = none }, suc n)

abbrev sub_name : String
sub_name = "sub"

abbrev done : MethodCallback rt1 ℕ
done = sync (λ id params max ext st. (notification rt1, st))

abbrev service1 : RpcService rt1 ℕ
service1 = record {
  conn_id = 0;
  methods = (register_method rt1 write0 empty "next" next_number).1;
  max_response_body_size = 10;
  cfg = only_calls;
}

abbrev request1 : Request rt1
request1 = record { id = RequestId.number 7; method = "next"; params = none; extensions = tt }

register_method-service_call_example :
    service_call rt1 service1 request1 (record { app = 4; free = 1 }) ≡ (
      with_extensions rt1
          (response rt1 write0
            (RequestId.number 7)
            (record { inner = Response.ResponsePayload.success 4; on_exit = none })
            10)
          tt,
      record { app = 5; free = 1 },
    )
unfolding Map.get
register_method-service_call_example =
    register_method-service_call rt1 write0 empty "next" next_number service1 request1
      (record { app = 4; free = 1 }) refl refl refl

register_subscription_lem_example :
    let (r, m') = register_subscription rt1 empty "sub" "unsub" done done in
    ((r ≡ ok tt)
      × (sub_name ≢ "unsub")
      × (method empty "sub" ≡ none)
      × (method empty "unsub" ≡ none)
      × (method m' "unsub"
          ≡ ite
              (String-discrete "sub" "unsub")
              (some done)
              (ite (String-discrete "unsub" "unsub") (some done) (method empty "unsub"))))
    ⊎ (((e : RegisterMethodError) × (r ≡ err e)) × (m' ≡ empty))
register_subscription_lem_example =
    register_subscription_lem rt1 empty "sub" "unsub" done done "unsub"
