-- ===== src/Server/Tests.antt =====
-- Runs of the server on small inputs.
use jsonrpseex.Prelude.{
  ℕ_discrete, ℕ, ◌+◌, ◌<◌, ◌≤◌, ◌≡◌, ◌⊎◌, refl, arith, none, some, List, [], ◌∷◌, Bool, true, false,
  String, String-discrete, length, ltb,
}
use jsonrpseex.Prelude.Map
use jsonrpseex.Prelude.Map.{Map, lookup}
use jsonrpseex.Types.Result.{Result, ok, err}
use jsonrpseex.Types.Ids.{RequestId}
use jsonrpseex.Types.Error
use jsonrpseex.Types.Error.{ErrorCode, ErrorObject, Json}
use jsonrpseex.Types.Response.{Response, ResponsePayload, success}
use jsonrpseex.Server.Runtime.{Written}
use jsonrpseex.Server.Fixtures.{rt1}
use jsonrpseex.Server.Response.Kind.{failed, ResponseKind, MethodResponseResult}
use jsonrpseex.Server.Response.{
  MethodResponse, Payload, response, result_of, error, error_json, reject,
  reject_too_big_batch_response,
}
use jsonrpseex.Server.Response.Bounded.{text, response_lem}
use jsonrpseex.Server.Response.Batch.Text.{array, jsons}
use jsonrpseex.Types.Method.{already_registered}
use jsonrpseex.Server.Methods.{method, merge}
use jsonrpseex.Server.Methods.Merge.{or_else, merge_lem}
use jsonrpseex.Server.Rpc.{
  Request, Notification, BatchEntry, BatchEntryErr, call, limit, Reader, read_entries,
  handle_rpc_call,
}
use jsonrpseex.Server.Rpc.Limits.{Fits, refusal, handle_rpc_call_batch}
use jsonrpseex.Server.Calls.{
  MethodCallback, sync, RpcService, Connection, only_calls, service, service_call, service_batch,
}
use jsonrpseex.Server.Calls.Batches.{answers, service_batch_lem}
use jsonrpseex.Server.Connections.{find_connection, connection_count, clean_up, broadcast_filtered}
use jsonrpseex.Server.Connections.Broadcast.{answering, remaining, broadcast_filtered_lem}
use jsonrpseex.Server.Body.{Frame}
use jsonrpseex.Server.Body.Chunks.{chunks}

-- The text of a response is its result's.
abbrev result_text : ResponsePayload Json → Json
result_text (success j) = j
result_text (ResponsePayload.error e) = []

abbrev write1 : Response Json → Written
write1 r = record { pieces = (b'r' ∷ []) ∷ result_text r.payload ∷ []; complete = true }

abbrev payload1 : Payload rt1 Json
payload1 = record { inner = success (b'1' ∷ b'2' ∷ []); on_exit = none }

abbrev answered : MethodResponse rt1
answered = record {
  json = b'4' ∷ [];
  success_or_error = MethodResponseResult.success;
  kind = ResponseKind.method_call;
  on_close = none;
  extensions = tt;
}

-- A method that counts its calls.
abbrev counting : MethodCallback rt1 ℕ
counting = sync λ id params max ext n. (answered, n + 1)

abbrev methods1 : Map String (MethodCallback rt1 ℕ)
methods1 = record { entries = ("count", counting) ∷ [] }

abbrev service1 : RpcService rt1 ℕ
service1 = record { conn_id = 1; methods = methods1; max_response_body_size = 5; cfg = only_calls }

abbrev connection1 : Connection ℕ
connection1 = record { app = 0; free = 3 }

abbrev request1 : Request rt1
request1 = record { id = RequestId.number 1; method = "count"; params = none; extensions = tt }

abbrev notification1 : Notification rt1
notification1 = record { method = "count"; params = none; extensions = tt }

abbrev batch1 : List (Result BatchEntryErr (BatchEntry rt1))
batch1 = ok (call request1) ∷ ok (BatchEntry.notification notification1) ∷ ok (call request1) ∷ []

abbrev notifications1 : List (Result BatchEntryErr (BatchEntry rt1))
notifications1 = ok (BatchEntry.notification notification1) ∷ []

abbrev reader1 : Reader rt1
reader1 = record {
  read_call = λ j e. some request1;
  read_notification = λ j e. none;
  read_invalid = λ j. none;
  read_array = λ j. some (j ∷ j ∷ []);
}

abbrev body1 : Json
body1 = b'[' ∷ []

-- A connection is open or closed.
abbrev send_if_open : Bool → Json → Bool × Bool
send_if_open s j = (s, s)

abbrev connections1 : Map ℕ Bool
connections1 = record { entries = (1, true) ∷ (2, false) ∷ (3, true) ∷ [] }

abbrev above_one : ℕ → Bool
above_one k = ltb 1 k

abbrev methods2 : Map String ℕ
methods2 = record { entries = ("one", 1) ∷ [] }

abbrev methods3 : Map String ℕ
methods3 = record { entries = ("two", 2) ∷ [] }

-- A body of two chunks, which is under every limit.
abbrev frames1 : List (Result ℕ Frame)
frames1 = chunks ((b' ' ∷ b'{' ∷ []) ∷ (b'}' ∷ []) ∷ [])

response_lem_example :
    let r = response rt1 write1 RequestId.null payload1 3 in
    ((length (text rt1 write1 RequestId.null payload1) ≤ 3)
      × (r.json ≡ text rt1 write1 RequestId.null payload1)
      × (r.success_or_error ≡ result_of rt1 payload1.inner))
    ⊎ ((3 < length (text rt1 write1 RequestId.null payload1))
        × (r.success_or_error ≡ failed Error.oversized_response_code)
        × (r.json
            ≡ error_json rt1 RequestId.null
                (reject rt1 Error.oversized_response_code "Response is too big" 3)))
response_lem_example = response_lem rt1 write1 RequestId.null payload1 3 refl

service_batch_lem_example :
    let (a, c') = service_batch rt1 service1 batch1 connection1 in
    let text = array (jsons rt1 (answered ∷ (answered ∷ []))) in
    ((length text ≤ service1.max_response_body_size)
      × (a.json ≡ text)
      × (c' ≡ (answers rt1 service1 batch1 connection1).1))
    ⊎ ((service1.max_response_body_size < length text)
        × (a
            ≡ error rt1 RequestId.null
                (reject_too_big_batch_response rt1 service1.max_response_body_size)))
unfolding answers service_call Map.get lookup String-discrete
service_batch_lem_example =
    service_batch_lem rt1 service1 batch1 connection1 answered (answered ∷ []) refl

handle_rpc_call_batch_example :
    let (r, st') =
      handle_rpc_call rt1 reader1 (service rt1 service1) body1 false (limit 1) tt connection1 in
    (Fits (limit 1) 2
      × (length (read_entries rt1 reader1 tt (body1 ∷ body1 ∷ [])) ≡ 2)
      × ((r, st')
          ≡ (service rt1 service1).batch
              (read_entries rt1 reader1 tt (body1 ∷ body1 ∷ []))
              connection1))
    ⊎ ((Fits (limit 1) 2 → ⊥) × (st' ≡ connection1) × (r ≡ refusal rt1 reader1 (limit 1)))
handle_rpc_call_batch_example =
    handle_rpc_call_batch rt1 reader1 (service rt1 service1) body1 (limit 1) tt connection1
      (body1 ∷ body1 ∷ []) refl (ground arith)

merge_lem_example :
    let (r, m') = merge methods2 methods3 in
    ((r ≡ ok tt)
      × ((n : String) → (method methods2 n ≡ none) ⊎ (method methods3 n ≡ none))
      × ((n : String) → method m' n ≡ or_else (method methods3 n) (method methods2 n)))
    ⊎ ((m' ≡ methods2)
        × ((n : String) × (c : ℕ) × (d : ℕ) × (r ≡ err (already_registered n))
            × (method methods2 n ≡ some c)
            × (method methods3 n ≡ some d)))
merge_lem_example = merge_lem methods2 methods3

broadcast_filtered_lem_example :
    let (r, m') = broadcast_filtered send_if_open connections1 (some body1) above_one in
    (failed : List ℕ) × (r
      ≡ ok (answering send_if_open body1 above_one true connections1.entries, failed))
    × (length failed ≡ answering send_if_open body1 above_one false connections1.entries)
    × (connection_count m' ≡ connection_count connections1)
    × ((k : ℕ)
        → find_connection (clean_up failed m') k
          ≡ remaining send_if_open body1 above_one k (find_connection connections1 k))
unfolding lookup ℕ_discrete
broadcast_filtered_lem_example =
    broadcast_filtered_lem send_if_open body1 above_one connections1 (refl, (refl, (refl, tt)))
