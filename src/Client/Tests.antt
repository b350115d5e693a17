-- ===== src/Client/Tests.antt =====
-- Runs of the client on small inputs.
use jsonrpseex.Prelude.{
  ℕ, suc, ◌+◌, ◌-◌, ◌<◌, ◌≡◌, ◌≢◌, inl, inr, refl, arith, none, some, List, [], ◌∷◌, ◌++◌,
  if◌then◌else◌, not, length, get_elem?, ℕ_discrete, String-discrete,
}
use jsonrpseex.Prelude.Map
use jsonrpseex.Types.Result.{ok}
use jsonrpseex.Types.Ids.{
  RequestId, RequestId-discrete, SubscriptionId-discrete, num, try_parse_inner_as_number,
}
use jsonrpseex.Types.Error.{Json}
use jsonrpseex.Client.Manager.{Range-discrete, find_request}
use jsonrpseex.Client.Manager.WellFormed.{IsWellFormed}
use jsonrpseex.Client.Manager.Lifecycle.{Fresh}
use jsonrpseex.Client.World.{
  RawResponse, RequestMessage, done, panics, start, call_reply, batch_reply, deliver,
}
use jsonrpseex.Client.Helpers.{placeholder, process_batch_response}
use jsonrpseex.Client.Helpers.Batch.{InRange, taken, latest, process_batch_response_in_order}
use jsonrpseex.Client.SingleResponse.{process_single_response}
use jsonrpseex.Client.SingleResponse.Effects.{
  is_refusal, awaits, process_single_response_refuses_iff,
  process_single_response-handle_frontend_messages,
}
use jsonrpseex.Client.Frontend.{FrontToBack, handle_frontend_messages}
use jsonrpseex.Client.Backend.{received, bytes, handle_backend_messages, first_non_whitespace}
use jsonrpseex.Client.Backend.Batches.{Has, ids_from, handle_backend_messages_batch}
use jsonrpseex.Client.Safety.{Reach, here, next, from_front, from_server}
use jsonrpseex.Client.Safety.Run.{Reach-IsWellFormed, Reach-ne-panics}
use jsonrpseex.Client.Fixtures.{
  answer, second, raw0, raw1, rt0, calling, two, batching, subscribe0, answer0, m0,
}

reached :
    Reach rt0
      (start rt0 4)
      (handle_backend_messages rt0 answer0
        (handle_frontend_messages rt0 subscribe0 (start rt0 4)).1).1
reached =
    next (next here (from_front (start rt0 4) subscribe0))
      (from_server (handle_frontend_messages rt0 subscribe0 (start rt0 4)).1 answer0)

both : InRange 0 2 (second ∷ answer ∷ [])
unfolding try_parse_inner_as_number
both = ((1, omega arith, refl), ((0, omega arith, refl), tt))

-- An answer to a request that the batch does not have.
abbrev stray : RawResponse
stray = record answer { id = RequestId.number 6 }

stray_out : ¬ (InRange 0 2 (stray ∷ []))
unfolding try_parse_inner_as_number
stray_out ((i, lt, e), _) = ground (arith, lt, e)

fresh0 : Fresh m0 (RequestId.number 0) (RequestId.number 1) (num 5) 7 8 "stop"
unfolding Map.get Map.lookup
fresh0 = (refl, refl, λ e. absurd (cc e), refl)

abbrev array0 : Json
array0 = b'[' ∷ []

in_order : InRange 0 2 (answer ∷ second ∷ [])
unfolding try_parse_inner_as_number
in_order = ((0, omega arith, refl), ((1, omega arith, refl), tt))

first_id : Has 0 (answer ∷ second ∷ [])
unfolding try_parse_inner_as_number
first_id = inl refl

last_id : Has 1 (answer ∷ second ∷ [])
unfolding try_parse_inner_as_number
last_id = inr (inl refl)

Reach-IsWellFormed_example :
    IsWellFormed
      (handle_backend_messages rt0 answer0
        (handle_frontend_messages rt0 subscribe0 (start rt0 4)).1).1.manager
Reach-IsWellFormed_example = Reach-IsWellFormed rt0 4 reached

Reach-ne-panics_example :
    ((handle_backend_messages rt0 answer0
        (handle_backend_messages rt0 answer0
          (handle_frontend_messages rt0 subscribe0 (start rt0 4)).1).1).0
      ≢ panics)
    × ((handle_frontend_messages rt0 subscribe0
          (handle_backend_messages rt0 answer0
            (handle_frontend_messages rt0 subscribe0 (start rt0 4)).1).1).0
        ≢ panics)
Reach-ne-panics_example = Reach-ne-panics rt0 4 answer0 subscribe0 reached

process_single_response_refuses_iff_example :
    let (r, w') = process_single_response rt0 calling second in
    let p = awaits rt0 (find_request calling.manager second.id) in
    (is_refusal rt0 (r, w') ≡ not p) × (w' ≡ (if p then w' else calling))
process_single_response_refuses_iff_example = process_single_response_refuses_iff rt0 calling second

process_single_response-handle_frontend_messages_example :
    let r : RequestMessage rt0 = record { raw = raw0; id = second.id; send_back = some 8 } in
    let (sent, w1) = handle_frontend_messages rt0 (FrontToBack.request r) calling in
    let (a, w2) = process_single_response rt0 w1 second in
    (sent ≡ done tt)
    × (w1.wire ≡ calling.wire ++ raw0 ∷ [])
    × (a ≡ done none)
    × (w2.delivered ≡ calling.delivered ++ call_reply 8 (ok second) ∷ [])
    × ((j : RequestId) → find_request w2.manager j ≡ find_request calling.manager j)
unfolding Map.get Map.lookup RequestId-discrete SubscriptionId-discrete ℕ_discrete String-discrete
process_single_response-handle_frontend_messages_example =
    process_single_response-handle_frontend_messages rt0 calling raw0 8 second refl refl

process_batch_response_in_order_example :
    (out : List RawResponse) × (process_batch_response rt0 batching (second ∷ answer ∷ []) two
      ≡ (ok tt, deliver rt0 (taken rt0 batching two) (batch_reply 7 (ok out))))
    × (length out ≡ two.end_ - two.start)
    × ((i : ℕ)
        → i < two.end_ - two.start
        → get_elem? out i ≡ some (latest (two.start + i) (second ∷ answer ∷ []) placeholder))
unfolding Map.get Map.lookup Range-discrete ℕ_discrete
process_batch_response_in_order_example =
    process_batch_response_in_order rt0 batching (second ∷ answer ∷ []) two 7 refl both

handle_backend_messages_batch_example :
    (out : List RawResponse) × (handle_backend_messages rt0 (received (bytes array0)) batching
      ≡ (done [], deliver rt0 (taken rt0 batching (ids_from 0 (suc 1))) (batch_reply 7 (ok out))))
    × (length out ≡ suc 1)
    × ((i : ℕ)
        → i < suc 1
        → get_elem? out i ≡ some (latest (0 + i) (answer ∷ second ∷ []) placeholder))
unfolding Map.get Map.lookup Range-discrete ℕ_discrete first_non_whitespace
handle_backend_messages_batch_example =
    handle_backend_messages_batch rt0 batching array0 (raw0 ∷ raw1 ∷ []) (answer ∷ second ∷ []) 0 1
      7 refl refl (refl, (refl, tt)) in_order first_id last_id (omega arith) refl
