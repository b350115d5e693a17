-- ===== src/Client/Service/Disconnected.antt =====
-- What the application never sees of the client's own errors.
use jsonrpseex.Prelude.{
  ℕ, String, ◌≡◌, ◌≢◌, refl, arith, Option, none, some, List, [], ◌∷◌, Bool, true, false,
}
use jsonrpseex.Types.Result.{Result, ok, err}
use jsonrpseex.Types.Ids.{RequestId, SubscriptionId}
use jsonrpseex.Types.Error.{Json, ErrorObject}
use jsonrpseex.Client.Manager.{Range}
use jsonrpseex.Client.World.{
  Runtime, RawResponse, ClientError, Outcome, done, fails, panics, service_disconnect,
}
use jsonrpseex.Client.Ids.{RequestIdManager, next_request_id}
use jsonrpseex.Client.Calls.{
  Request, BatchEntry, BatchResponse, prepare_batch, no_responses, collect, converted, pushed,
  request_result, subscribe_ids,
}
use jsonrpseex.Client.Service.{
  Background, IsSubscription, MiddlewareMethodResponse, call, batch, notification,
}
use jsonrpseex.Client.Service.Calls.{
  with_ids, with_batch, with_params, expect_subscription, outcome, then_, run_future_until_timeout,
  client_request, client_batch_request, client_notification, client_subscribe,
}

-- Neither the internal error nor a panic.
abbrev pub IsShown : {A : Type 0} → Outcome A → Type 0
IsShown o = (o ≢ fails service_disconnect) × (o ≢ panics)

module _ (rt : Runtime) (back : Background rt) (timed_out : Bool)
    (reason : Option ClientError) where
  run_future_until_timeout-IsShown :
      {A : Type 0} (b : Bool) (r : Option ClientError) (o : Outcome A)
      → o ≢ panics
      → IsShown (run_future_until_timeout rt back b r o)
  unfolding run_future_until_timeout
  run_future_until_timeout-IsShown true r o h = (λ e. cc e, λ e. cc e)
  run_future_until_timeout-IsShown false r (done a) h = (λ e. cc e, λ e. cc e)
  run_future_until_timeout-IsShown false none (fails service_disconnect) h = (λ e. cc e, λ e. cc e)
  run_future_until_timeout-IsShown false (some x) (fails service_disconnect) h =
      (λ e. cc e, λ e. cc e)
  run_future_until_timeout-IsShown false r (fails x) h = (λ e. cc e, λ e. cc e)
  run_future_until_timeout-IsShown false r panics h = absurd (h refl)

  run_future_until_timeout-done :
      {A : Type 0} (b : Bool) (r : Option ClientError) (o : Outcome A) (a : A)
      → run_future_until_timeout rt back b r o ≡ done a
      → o ≡ done a
  unfolding run_future_until_timeout
  run_future_until_timeout-done true r o a h = absurd (cc h)
  run_future_until_timeout-done false r (done x) a h = h
  run_future_until_timeout-done false r (fails service_disconnect) a h = absurd (cc h)
  run_future_until_timeout-done false r (fails x) a h = absurd (cc h)
  run_future_until_timeout-done false r panics a h = absurd (cc h)

  then-IsShown :
      {A B : Type 0} (o : Outcome A) (f : A → Outcome B)
      → IsShown o
      → ((a : A) → o ≡ done a → IsShown (f a))
      → IsShown (then_ rt back o f)
  then-IsShown (done a) f s h = h a refl
  then-IsShown (fails x) f s h = (λ e. s.0 (cc e), λ e. cc e)
  then-IsShown panics f s h = absurd (s.1 refl)

  -- What the service gives, and what is made of it if it is a success.
  after-IsShown :
      {A B : Type 0} (o : Outcome A) (f : A → Outcome B)
      → o ≢ panics
      → ((a : A) → o ≡ done a → IsShown (f a))
      → IsShown (then_ rt back (run_future_until_timeout rt back timed_out reason o) f)
  after-IsShown o f p h =
      then-IsShown (run_future_until_timeout rt back timed_out reason o) f
        (run_future_until_timeout-IsShown timed_out reason o p)
        (λ a e. h a (run_future_until_timeout-done timed_out reason o a e))

  outcome-done :
      {A : Type 0} (r : Result ClientError A) (a : A) → outcome rt back r ≡ done a → r ≡ ok a
  outcome-done (ok x) a h = cc h
  outcome-done (err x) a h = absurd (cc h)

  outcome-ne : {A : Type 0} (r : Result ClientError A) → outcome rt back r ≢ panics
  outcome-ne (ok a) h = cc h
  outcome-ne (err x) h = cc h

  outcome-IsShown :
      {A : Type 0} (r : Result ClientError A)
      → r ≢ err service_disconnect
      → IsShown (outcome rt back r)
  outcome-IsShown (ok a) h = (λ e. cc e, λ e. cc e)
  outcome-IsShown (err x) h = (λ e. h (cc e), λ e. cc e)

  module _ {R : Type 0} (from_str : Json → Option R) where
    request_result-ne : (rp : RawResponse) → request_result from_str rp ≢ err service_disconnect
    unfolding request_result
    request_result-ne rp h = ground arith

    converted-ne : (rp : RawResponse) → converted from_str rp ≢ err service_disconnect
    unfolding converted
    converted-ne rp h = ground arith

    pushed-ne :
        (rest : BatchResponse R → Result ClientError (BatchResponse R)) (b : BatchResponse R)
        (r : Result ClientError (Result ErrorObject R))
        → r ≢ err service_disconnect
        → ((b' : BatchResponse R) → rest b' ≢ err service_disconnect)
        → pushed from_str rest b r ≢ err service_disconnect
    unfolding pushed
    pushed-ne rest b (ok x) p k h = k _ h
    pushed-ne rest b (err e) p k h = p (cc h)

    collect-ne :
        (rps : List RawResponse) (b : BatchResponse R)
        → collect from_str rps b ≢ err service_disconnect
    unfolding collect
    collect-ne [] b h = cc h
    collect-ne (rp ∷ rps) b h =
        pushed-ne (λ b'. collect from_str rps b') b (converted from_str rp) (converted-ne rp)
          (λ b'. collect-ne rps b') h

  prepare_batch-ne :
      (m : RequestIdManager) (entries : List BatchEntry)
      → (prepare_batch m entries).0 ≢ err service_disconnect
  unfolding prepare_batch
  prepare_batch-ne m entries h = ground arith

  call_subscribes :
      (req : Request) (sub : IsSubscription) (st : back.State) (rp : MiddlewareMethodResponse)
      → (call rt back req (some sub) st).0 ≡ ok rp
      → rp.subscription ≢ none
  unfolding call
  call_subscribes req sub st rp h e = ground arith

  batch-ne :
      (reqs : List Request) (range : Range) (st : back.State)
      → (batch rt back reqs (some range) st).0 ≢ panics
  unfolding batch
  batch-ne reqs range st h = ground arith

  expect-IsShown :
      (o : Option (ℕ × SubscriptionId))
      → o ≢ none
      → IsShown (expect_subscription rt back timed_out reason o)
  unfolding expect_subscription
  expect-IsShown none h = absurd (h refl)
  expect-IsShown (some (stream, id)) h = (λ k. cc k, λ k. cc k)

  with_ids-IsShown :
      (name unsub : String) (params : Option (Option Json))
      (ids : Result ClientError (RequestId × RequestId)) (st : back.State)
      → ids ≢ err service_disconnect
      → IsShown (with_ids rt back timed_out reason name unsub params ids st)
  unfolding with_ids
  with_ids-IsShown name unsub params (err e) st h = (λ k. h (cc k), λ k. cc k)
  with_ids-IsShown name unsub none (ok ids) st h = (λ k. cc k, λ k. cc k)
  with_ids-IsShown name unsub (some params) (ok (sub, uns)) st h =
      let req : Request = record { id = sub; method = name; params = params } in
      let ext : IsSubscription = record {
        sub_req_id = sub;
        unsub_req_id = uns;
        unsubscribe_method = unsub;
      } in
      let r = (call rt back req (some ext) st).0 in
      after-IsShown (outcome rt back r)
        (λ rp. expect_subscription rt back timed_out reason rp.subscription) (outcome-ne r)
        (λ a e. expect-IsShown a.subscription (call_subscribes req ext st a (outcome-done r a e)))

  with_batch-IsShown :
      {R : Type 0} (from_str : Json → Option R) (r : Result ClientError (Range × List Request))
      (st : back.State)
      → r ≢ err service_disconnect
      → IsShown (with_batch rt back timed_out reason from_str r st)
  unfolding with_batch
  with_batch-IsShown from_str (err e) st h = (λ k. h (cc k), λ k. cc k)
  with_batch-IsShown from_str (ok (range, reqs)) st h =
      after-IsShown (batch rt back reqs (some range) st).0
        (λ rps. outcome rt back (collect from_str rps no_responses)) (batch-ne reqs range st)
        (λ a e.
          outcome-IsShown (collect from_str a no_responses) (collect-ne from_str a no_responses))

  with_params-IsShown :
      {R : Type 0} (from_str : Json → Option R) (id : RequestId) (name : String)
      (params : Option (Option Json)) (st : back.State)
      → IsShown (with_params rt back timed_out reason from_str id name params st)
  unfolding with_params
  with_params-IsShown from_str id name none st = (λ k. cc k, λ k. cc k)
  with_params-IsShown from_str id name (some params) st =
      let req : Request = record { id = id; method = name; params = params } in
      let r = (call rt back req none st).0 in
      after-IsShown (outcome rt back r) (λ rp. outcome rt back (request_result from_str rp.rp))
        (outcome-ne r)
        (λ a e. outcome-IsShown (request_result from_str a.rp) (request_result-ne from_str a.rp))

  module _ (m : RequestIdManager) (name : String) (params : Option (Option Json))
      (st : back.State) where
    subscribe_ids-ne : (unsub : String) → (subscribe_ids m name unsub).0 ≢ err service_disconnect
    unfolding subscribe_ids
    subscribe_ids-ne unsub h = ground arith

    client_notification-IsShown :
        (p : Option (Option Json))
        → IsShown (client_notification rt back timed_out reason name p st)
    unfolding client_notification
    client_notification-IsShown none = (λ e. cc e, λ e. cc e)
    client_notification-IsShown (some p) =
        let r = (notification rt back name p st).0 in
        run_future_until_timeout-IsShown timed_out reason (outcome rt back r) (outcome-ne r)

    -- Whatever the background task does, also if it is gone, no request, batch, notification or
    -- subscription of the client ends with the internal error of a lost service, and the two
    -- expectations on what the service returns never make it panic.
    pub client_calls-IsShown :
        {R : Type 0} (from_str : Json → Option R) (entries : List BatchEntry) (unsub : String)
        → IsShown (client_request rt back timed_out reason from_str m name params st)
          × IsShown (client_batch_request rt back timed_out reason from_str m entries st)
          × IsShown (client_notification rt back timed_out reason name params st)
          × IsShown (client_subscribe rt back timed_out reason m name params unsub st)
    unfolding client_request client_batch_request client_subscribe
    client_calls-IsShown from_str entries unsub = (
      with_params-IsShown from_str (next_request_id m).0 name params st,
      with_batch-IsShown from_str (prepare_batch m entries).0 st (prepare_batch-ne m entries),
      client_notification-IsShown params,
      with_ids-IsShown name unsub params (subscribe_ids m name unsub).0 st (subscribe_ids-ne unsub),
    )
