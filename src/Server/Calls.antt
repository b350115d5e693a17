-- ===== src/Server/Calls.antt =====
-- server/src/middleware/rpc.rs: `RpcService`, which runs the registered methods.
pub mod Batches
pub mod Permits
use jsonrpseex.Prelude.{
  ℕ, ◌-◌, String, Option, none, some, List, [], ◌∷◌, Bool, true, false, ◌&&◌, ◌==◌, if◌then◌else◌,
}
use jsonrpseex.Prelude.Map.{Map}
use jsonrpseex.Types.Result.{Result, ok, err}
use jsonrpseex.Types.Ids.{RequestId}
use jsonrpseex.Types.Error
use jsonrpseex.Types.Error.{ErrorCode, Json}
use jsonrpseex.Server.Runtime.{Runtime}
use jsonrpseex.Server.Response.{
  MethodResponse, with_extensions, error, notification, reject_too_many_subscriptions,
}
use jsonrpseex.Server.Response.Batch.{
  BatchResponseBuilder, new_with_limit, append, is_empty, finish, from_batch,
}
use jsonrpseex.Server.Methods.{method}
use jsonrpseex.Server.Rpc.{Request, Notification, BatchEntry, BatchEntryErr, call, RpcServiceT}

-- `SubscriptionState`, less the permit, which `RpcService.call` has taken when the callback runs.
pub record SubscriptionState (rt : Runtime) : Type 0 where
  pub conn_id : ℕ
  pub id_provider : rt.IdProvider

-- The callbacks act on the application's state `St`. A future is its result, and what it does to
-- the state. A subscription's callback tells whether the permit is still held when it is done.
pub data MethodCallback (rt : Runtime) (St : Type 0) : Type 0 where
  sync : (RequestId → Option Json → ℕ → rt.Ext → St → MethodResponse rt × St) → MethodCallback rt St
  async_ :
      (RequestId → Option Json → ℕ → ℕ → rt.Ext → St → MethodResponse rt × St)
      → MethodCallback rt St
  subscription :
      (RequestId
        → Option Json
        → rt.Sink
        → SubscriptionState rt
        → rt.Ext
        → St
        → (MethodResponse rt × Bool) × St)
      → MethodCallback rt St
  unsubscription :
      (RequestId → Option Json → ℕ → ℕ → rt.Ext → St → MethodResponse rt × St)
      → MethodCallback rt St

-- `BoundedSubscriptions` is the number of free permits of its semaphore, which is in the state, and
-- the maximum.
pub data RpcServiceCfg (rt : Runtime) : Type 0 where
  only_calls : RpcServiceCfg rt
  calls_and_subscriptions : ℕ → rt.Sink → rt.IdProvider → RpcServiceCfg rt

pub record RpcService (rt : Runtime) (St : Type 0) : Type 0 where
  pub conn_id : ℕ
  pub methods : Map String (MethodCallback rt St)
  pub max_response_body_size : ℕ
  pub cfg : RpcServiceCfg rt

pub record Connection (St : Type 0) : Type 0 where
  pub app : St
  pub free : ℕ

abbrev pub Answer : Runtime → Type 0 → Type 0
Answer rt St = MethodResponse rt × Connection St

module _ (rt : Runtime) {St : Type 0} where
  -- What a callback does to the application is done, the permits are left.
  with_app : Connection St → MethodResponse rt × St → Answer rt St
  with_app c (r, app) = (r, record c { app = app })

  with_permit : Connection St → (MethodResponse rt × Bool) × St → Answer rt St
  with_permit c ((r, kept), app) =
      (r, record { app = app; free = if kept then c.free - 1 else c.free })

  not_supported : Request rt → Connection St → Answer rt St
  unfolding Error.from_error_code
  not_supported req c = (
    with_extensions rt (error rt req.id (Error.from_error_code ErrorCode.internal_error))
        req.extensions,
    c,
  )

  too_many : Request rt → ℕ → Connection St → Answer rt St
  too_many req max c = (
    with_extensions rt (error rt req.id (reject_too_many_subscriptions rt max)) req.extensions,
    c,
  )

  module _ (s : RpcService rt St) where
    run : Request rt → Connection St → MethodCallback rt St → RpcServiceCfg rt → Answer rt St
    unfolding with_app with_permit not_supported too_many
    run req c (sync f) _ =
        with_app c (f req.id req.params s.max_response_body_size req.extensions c.app)
    run req c (async_ f) _ =
        with_app c (f req.id req.params s.conn_id s.max_response_body_size req.extensions c.app)
    run req c (MethodCallback.subscription f) only_calls = not_supported req c
    run req c (MethodCallback.subscription f) (calls_and_subscriptions max sink provider) =
        if c.free == 0
        then too_many req max c
        else with_permit c (
            f req.id req.params sink (record { conn_id = s.conn_id; id_provider = provider })
              req.extensions c.app)
    run req c (unsubscription f) only_calls = not_supported req c
    run req c (unsubscription f) (calls_and_subscriptions _ _ _) =
        with_app c (f req.id req.params s.conn_id s.max_response_body_size req.extensions c.app)

    run_method : Request rt → Connection St → Option (MethodCallback rt St) → Answer rt St
    unfolding run Error.from_error_code
    run_method req c none = (
      with_extensions rt (error rt req.id (Error.from_error_code ErrorCode.method_not_found))
          req.extensions,
      c,
    )
    run_method req c (some callback) = run req c callback s.cfg

    unfoldable pub service_call : Request rt → Connection St → Answer rt St
    unfolding run_method
    service_call req c = run_method req c (method s.methods req.method)

    unfoldable pub service_notification : Notification rt → Connection St → Answer rt St
    unfolding notification
    service_notification n c = (with_extensions rt (notification rt) n.extensions, c)

    -- An entry is appended; the batch is given up when it is too big.
    abbrev pub Rest : Type 0
    Rest =
        BatchResponseBuilder rt
        → Bool
        → Connection St
        → Result (MethodResponse rt) (BatchResponseBuilder rt × Bool) × Connection St

    after_append :
        Rest
        → Bool
        → Connection St
        → Result (MethodResponse rt) (Unit {0}) × BatchResponseBuilder rt
        → Result (MethodResponse rt) (BatchResponseBuilder rt × Bool) × Connection St
    after_append rest got c (ok _, b) = rest b got c
    after_append rest got c (err e, b) = (err e, c)

    after_call :
        Rest
        → BatchResponseBuilder rt
        → Bool
        → Answer rt St
        → Result (MethodResponse rt) (BatchResponseBuilder rt × Bool) × Connection St
    unfolding after_append append
    after_call rest b got (r, c) = after_append rest got c (append rt b r)

    -- The loop over the entries, with the builder and `got_notification`.
    unfoldable pub entries_loop : List (Result BatchEntryErr (BatchEntry rt)) → Rest
    unfolding after_call service_call service_notification
    entries_loop [] b got c = (ok (b, got), c)
    entries_loop (ok (call req) ∷ es) b got c =
        after_call (entries_loop es) b got (service_call req c)
    entries_loop (ok (BatchEntry.notification n) ∷ es) b got c =
        entries_loop es b true (service_notification n c).1
    entries_loop (err e ∷ es) b got c = after_call (entries_loop es) b got (error rt e.id e.err, c)

    after_entries :
        Result (MethodResponse rt) (BatchResponseBuilder rt × Bool) × Connection St → Answer rt St
    unfolding is_empty finish from_batch notification
    after_entries (err e, c) = (e, c)
    after_entries (ok (b, got), c) =
        if is_empty rt b && got then (notification rt, c) else (from_batch rt (finish rt b), c)

    unfoldable pub service_batch :
        List (Result BatchEntryErr (BatchEntry rt)) → Connection St → Answer rt St
    unfolding entries_loop after_entries new_with_limit
    service_batch es c =
        after_entries (entries_loop es (new_with_limit rt s.max_response_body_size) false c)

    abbrev pub service : RpcServiceT rt (Connection St)
    service = record {
      call = service_call;
      batch = service_batch;
      notification = service_notification;
    }
