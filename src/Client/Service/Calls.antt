-- ===== src/Client/Service/Calls.antt =====
-- core/src/client/async_client/mod.rs: the calls of the asynchronous client, over `RpcService`.
use jsonrpseex.Prelude.{ℕ, String, Option, none, some, List, Bool, true, false, if◌then◌else◌}
use jsonrpseex.Types.Result.{Result, ok, err}
use jsonrpseex.Types.Ids.{RequestId, SubscriptionId}
use jsonrpseex.Types.Error.{Json}
use jsonrpseex.Client.Manager.{Range}
use jsonrpseex.Client.World.{
  Runtime, ClientError, Outcome, done, fails, panics, request_timeout, service_disconnect,
  parse_error,
}
use jsonrpseex.Client.Frontend.{FrontToBack}
use jsonrpseex.Client.Ids.{RequestIdManager, next_request_id}
use jsonrpseex.Client.Calls.{
  Request, BatchEntry, BatchResponse, prepare_batch, collect, no_responses, request_result,
  subscribe_ids,
}
use jsonrpseex.Client.Subscription.{SubscriptionKind, subscription, method}
use jsonrpseex.Client.Service.{
  Background, Awaited, not_sent, dropped, replied, read_error, call, batch, notification,
}

module _ (rt : Runtime) (back : Background rt) where
  -- `run_future_until_timeout`: whether the timeout comes first, and the reason of a disconnect.
  unfoldable pub run_future_until_timeout :
      {A : Type 0} → Bool → Option ClientError → Outcome A → Outcome A
  unfolding read_error
  run_future_until_timeout true reason fut = fails request_timeout
  run_future_until_timeout false reason (done a) = done a
  run_future_until_timeout false reason (fails service_disconnect) = fails (read_error reason)
  run_future_until_timeout false reason (fails e) = fails e
  run_future_until_timeout false reason panics = panics

  abbrev pub outcome : {A : Type 0} → Result ClientError A → Outcome A
  outcome (ok a) = done a
  outcome (err e) = fails e

  abbrev pub then_ : {A B : Type 0} → Outcome A → (A → Outcome B) → Outcome B
  then_ (done a) f = f a
  then_ (fails e) f = fails e
  then_ panics f = panics

  module _ (timed_out : Bool) (reason : Option ClientError) where
    -- The calls of the client. The parameters come as what `to_rpc_params` gives, and the id manager
    -- as it is before the call.
    unfoldable pub client_notification :
        String → Option (Option Json) → back.State → Outcome (Unit {0})
    unfolding notification run_future_until_timeout
    client_notification name none st = fails parse_error
    client_notification name (some params) st =
        run_future_until_timeout timed_out reason (outcome (notification rt back name params st).0)

    unfoldable pub with_params :
        {R : Type 0}
        → (Json → Option R)
        → RequestId
        → String
        → Option (Option Json)
        → back.State
        → Outcome R
    unfolding call run_future_until_timeout request_result
    with_params from_str id name none st = fails parse_error
    with_params from_str id name (some params) st =
        then_
          (run_future_until_timeout timed_out reason
            (outcome (call rt back (record { id = id; method = name; params = params }) none st).0))
          (λ rp. outcome (request_result from_str rp.rp))

    unfoldable pub client_request :
        {R : Type 0}
        → (Json → Option R)
        → RequestIdManager
        → String
        → Option (Option Json)
        → back.State
        → Outcome R
    unfolding with_params next_request_id
    client_request from_str m name params st =
        with_params from_str (next_request_id m).0 name params st

    unfoldable pub with_batch :
        {R : Type 0}
        → (Json → Option R)
        → Result ClientError (Range × List Request)
        → back.State
        → Outcome (BatchResponse R)
    unfolding batch run_future_until_timeout collect
    with_batch from_str (err e) st = fails e
    with_batch from_str (ok (range, reqs)) st =
        then_ (run_future_until_timeout timed_out reason (batch rt back reqs (some range) st).0)
          (λ rps. outcome (collect from_str rps no_responses))

    unfoldable pub client_batch_request :
        {R : Type 0}
        → (Json → Option R)
        → RequestIdManager
        → List BatchEntry
        → back.State
        → Outcome (BatchResponse R)
    unfolding with_batch prepare_batch
    client_batch_request from_str m entries st = with_batch from_str (prepare_batch m entries).0 st

    unfoldable pub expect_subscription :
        Option (ℕ × SubscriptionId) → Outcome (ℕ × SubscriptionKind)
    expect_subscription none = panics
    expect_subscription (some (stream, sub_id)) = done (stream, subscription sub_id)

    unfoldable pub with_ids :
        String
        → String
        → Option (Option Json)
        → Result ClientError (RequestId × RequestId)
        → back.State
        → Outcome (ℕ × SubscriptionKind)
    unfolding call run_future_until_timeout expect_subscription
    with_ids name unsub params (err e) st = fails e
    with_ids name unsub none (ok ids) st = fails parse_error
    with_ids name unsub (some params) (ok (req_id_sub, req_id_unsub)) st =
        then_
          (run_future_until_timeout timed_out reason (
            outcome
              (call rt back (record { id = req_id_sub; method = name; params = params })
                (some (record {
                  sub_req_id = req_id_sub;
                  unsub_req_id = req_id_unsub;
                  unsubscribe_method = unsub;
                }))
                st).0))
          (λ rp. expect_subscription rp.subscription)

    -- The stream and the kind of the new subscription.
    unfoldable pub client_subscribe :
        RequestIdManager
        → String
        → Option (Option Json)
        → String
        → back.State
        → Outcome (ℕ × SubscriptionKind)
    unfolding with_ids subscribe_ids
    client_subscribe m subscribe_method params unsubscribe_method st =
        with_ids subscribe_method unsubscribe_method params
          (subscribe_ids m subscribe_method unsubscribe_method).0 st

    registered : Awaited (Result ClientError (ℕ × String)) → Outcome (ℕ × SubscriptionKind)
    unfolding read_error
    registered not_sent = fails (read_error reason)
    registered dropped = if timed_out then fails request_timeout else fails (read_error reason)
    registered (replied (ok (rx, name))) =
        if timed_out then fails request_timeout else done (rx, method name)
    registered (replied (err e)) = if timed_out then fails request_timeout else fails e

    unfoldable pub client_subscribe_to_method : String → back.State → Outcome (ℕ × SubscriptionKind)
    unfolding registered
    client_subscribe_to_method name st =
        registered (back.ask_register (λ o. FrontToBack.register_notification name o) st).0
