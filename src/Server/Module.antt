-- ===== src/Server/Module.antt =====
-- core/src/server/rpc_module.rs: `RpcModule`, which registers the application's callbacks as methods.
-- The context is part of the state that a callback acts on.
pub mod Registered
mod Tests
use jsonrpseex.Prelude.{ℕ, String, Option, none, some, String-discrete}
use jsonrpseex.Prelude.Map
use jsonrpseex.Prelude.Map.{Map}
use jsonrpseex.Types.Result.{Result, ok, err}
use jsonrpseex.Types.Ids.{RequestId}
use jsonrpseex.Types.Error
use jsonrpseex.Types.Error.{ErrorCode, Json}
use jsonrpseex.Types.Response.{Response}
use jsonrpseex.Types.Method.{RegisterMethodError}
use jsonrpseex.Server.Runtime.{Runtime, Written}
use jsonrpseex.Server.Response.{MethodResponse, Payload, with_extensions, error, response}
use jsonrpseex.Server.Methods.{method, verify_and_insert, verify_and_register_unsubscribe}
use jsonrpseex.Server.Calls.{MethodCallback, sync, async_}

abbrev pub Table : Runtime → Type 0 → Type 0
Table rt St = Map String (MethodCallback rt St)

abbrev pub Registration : Runtime → Type 0 → Type 0
Registration rt St = Result RegisterMethodError (Unit {0}) × Table rt St

module _ (rt : Runtime) {St : Type 0} where
  module _ {R : Type 0} (write : Response R → Written) where
    -- The response of a callback that is done.
    unfoldable pub respond : RequestId → ℕ → rt.Ext → Payload rt R × St → MethodResponse rt × St
    unfolding response
    respond id max ext (rp, st) = (with_extensions rt (response rt write id rp max) ext, st)

    unfoldable pub register_method :
        Table rt St → String → (Option Json → rt.Ext → St → Payload rt R × St) → Registration rt St
    unfolding verify_and_insert respond
    register_method m name callback =
        verify_and_insert m name
          (sync (λ id params max ext st. respond id max ext (callback params ext st)))

    unfoldable pub register_async_method :
        Table rt St → String → (Option Json → rt.Ext → St → Payload rt R × St) → Registration rt St
    unfolding verify_and_insert respond
    register_async_method m name callback =
        verify_and_insert m name
          (async_ (λ id params conn_id max ext st. respond id max ext (callback params ext st)))

    -- A callback on a thread of its own; there is no result if the thread panicked.
    joined : RequestId → ℕ → rt.Ext → Option (Payload rt R) × St → MethodResponse rt × St
    unfolding respond Error.from_error_code
    joined id max ext (some rp, st) = respond id max ext (rp, st)
    joined id max ext (none, st) = (
      with_extensions rt (error rt RequestId.null (Error.from_error_code ErrorCode.internal_error))
          ext,
      st,
    )

    unfoldable pub register_blocking_method :
        Table rt St
        → String
        → (Option Json → rt.Ext → St → Option (Payload rt R) × St)
        → Registration rt St
    unfolding verify_and_insert joined
    register_blocking_method m name callback =
        verify_and_insert m name
          (async_ (λ id params conn_id max ext st. joined id max ext (callback params ext st)))

  unfoldable pub remove_method : Table rt St → String → Option (MethodCallback rt St) × Table rt St
  unfolding String-discrete
  remove_method m name = (method m name, Map.remove String-discrete m name)

  after_unsubscribe : String → MethodCallback rt St → Registration rt St → Registration rt St
  unfolding verify_and_insert
  after_unsubscribe subscribe_name callback (err e, m) = (err e, m)
  after_unsubscribe subscribe_name callback (ok _, m) = verify_and_insert m subscribe_name callback

  -- `register_subscription` and `register_subscription_raw`, with the callbacks that they make.
  unfoldable pub register_subscription :
      Table rt St
      → String
      → String
      → MethodCallback rt St
      → MethodCallback rt St
      → Registration rt St
  unfolding after_unsubscribe verify_and_register_unsubscribe
  register_subscription m subscribe_name unsubscribe_name subscribe_callback unsubscribe_callback =
      after_unsubscribe subscribe_name subscribe_callback
        (verify_and_register_unsubscribe m subscribe_name unsubscribe_name unsubscribe_callback)
