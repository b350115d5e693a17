-- ===== src/Client/Calls.antt =====
-- The calls of the two clients, before the middleware and after it: core/src/client/async_client/mod.rs
-- (`ClientT for Client`), client/http-client/src/client.rs (`ClientT for HttpClient`) and the builder
-- of batches in core/src/params.rs.
pub mod Numbered
pub mod HttpBatch
pub mod Results
mod Tests
use jsonrpseex.Prelude.{
  ℕ, suc, ◌+◌, ◌-◌, String, String-discrete, Option, none, some, List, [], ◌∷◌, ◌++◌, Bool, leb,
  ltb, ◌&&◌, if◌then◌else◌, length, set, replicate, ite,
}
use jsonrpseex.Types.Result.{Result, ok, err, ◌>>=◌}
use jsonrpseex.Types.Ids.{
  RequestId, RequestId-discrete, InvalidRequestId, not_pending_request, try_parse_inner_as_number,
  display,
}
use jsonrpseex.Prelude.Int.{pos}
use jsonrpseex.Types.Error
use jsonrpseex.Types.Error.{ErrorObject, Json}
use jsonrpseex.Types.Response.{Success, try_from}
use jsonrpseex.Types.Method.{subscription_name_conflict}
use jsonrpseex.Client.Manager.{Range}
use jsonrpseex.Client.World.{
  RawResponse, ClientError, call, parse_error, invalid_request_id, empty_batch_request,
  register_method,
}
use jsonrpseex.Client.Ids.{
  IdKind, into_id, RequestIdManager, next_request_id, generate_batch_id_range,
}

-- An entry of a `BatchRequestBuilder`, whose entries are a list; `insert` appends one.
pub record BatchEntry : Type 0 where
  pub method : String
  pub params : Option Json

-- `BatchRequestBuilder::insert`, with the parameters, if they could be serialized.
unfoldable pub insert :
    List BatchEntry → String → Option (Option Json) → Result (Unit {0}) (Unit {0}) × List BatchEntry
insert b method none = (err tt, b)
insert b method (some params) = (ok tt, b ++ record { method = method; params = params } ∷ [])

-- `BatchRequestBuilder::build`
unfoldable pub build : List BatchEntry → Result ClientError (List BatchEntry)
build [] = err empty_batch_request
build (e ∷ es) = ok (e ∷ es)

pub record Request : Type 0 where
  pub id : RequestId
  pub method : String
  pub params : Option Json

-- The entries zipped with the ids from `start` on.
unfoldable pub numbered : IdKind → ℕ → List BatchEntry → List Request
unfolding into_id
numbered kind start [] = []
numbered kind start (e ∷ es) =
    record { id = into_id kind start; method = e.method; params = e.params }
    ∷ numbered kind (suc start) es

with_range :
    IdKind → List BatchEntry → Result ClientError Range → Result ClientError (Range × List Request)
unfolding numbered
with_range kind es (err e) = err e
with_range kind es (ok range) = ok (range, numbered kind range.start es)

with_id :
    RequestIdManager
    → Result ClientError (List BatchEntry)
    → Result ClientError (Range × List Request) × RequestIdManager
unfolding next_request_id generate_batch_id_range with_range
with_id m (err e) = (err e, m)
with_id m (ok es) =
    let (id, m') = next_request_id m in
    (with_range m.id_kind es (generate_batch_id_range id (length es)), m')

-- What `batch_request` hands to the service, in both clients.
unfoldable pub prepare_batch :
    RequestIdManager
    → List BatchEntry
    → Result ClientError (Range × List Request) × RequestIdManager
unfolding build with_id
prepare_batch m batch = with_id m (build batch)

pub record BatchResponse (R : Type 0) : Type 0 where
  pub successful_calls : ℕ
  pub failed_calls : ℕ
  pub responses : List (Result ErrorObject R)

abbrev pub no_responses : {R : Type 0} → BatchResponse R
no_responses = record { successful_calls = 0; failed_calls = 0; responses = [] }

-- The text that the placeholder of the HTTP client's batch has.
unfoldable pub placeholder : ErrorObject
unfolding Error.new
placeholder = Error.new (pos 0) "" none

-- `from_str` is how serde_json reads a result.
module _ {R : Type 0} (from_str : Json → Option R) where
  read_result : Option R → Result ClientError (Result ErrorObject R)
  read_result none = err parse_error
  read_result (some r) = ok (ok r)

  of_success : Result ErrorObject (Success Json) → Result ClientError (Result ErrorObject R)
  unfolding read_result
  of_success (ok val) = read_result (from_str val.result)
  of_success (err e) = ok (err e)

  -- One response as an element of the batch response, or the error that ends the whole call.
  unfoldable pub converted : RawResponse → Result ClientError (Result ErrorObject R)
  unfolding of_success try_from
  converted rp = of_success (try_from rp)

  unfoldable pub counted : BatchResponse R → Result ErrorObject R → BatchResponse R
  counted b (ok r) = record b { successful_calls = b.successful_calls + 1 }
  counted b (err e) = record b { failed_calls = b.failed_calls + 1 }

  unfoldable pub pushed :
      (BatchResponse R → Result ClientError (BatchResponse R))
      → BatchResponse R
      → Result ClientError (Result ErrorObject R)
      → Result ClientError (BatchResponse R)
  unfolding counted
  pushed rest b (err e) = err e
  pushed rest b (ok r) = rest (record (counted b r) { responses = b.responses ++ r ∷ [] })

  -- The asynchronous client's loop over the responses, which the background task has put into the
  -- order of the requests.
  unfoldable pub collect : List RawResponse → BatchResponse R → Result ClientError (BatchResponse R)
  unfolding pushed converted
  collect [] b = ok b
  collect (rp ∷ rps) b = pushed (λ b'. collect rps b') b (converted rp)

  placed :
      (BatchResponse R → Result ClientError (BatchResponse R))
      → ℕ
      → RawResponse
      → ℕ
      → BatchResponse R
      → Result ClientError (Result ErrorObject R)
      → Result ClientError (BatchResponse R)
  unfolding counted
  placed rest start rp id b (err e) = err e
  placed rest start rp id b (ok r) =
      let next = rest (record (counted b r) { responses = set b.responses (id - start) r }) in
      if leb start id && ltb (id - start) (length b.responses)
      then next
      else err (invalid_request_id (not_pending_request (display (RequestId.number id))))

  with_number :
      (BatchResponse R → Result ClientError (BatchResponse R))
      → ℕ
      → RawResponse
      → BatchResponse R
      → Result InvalidRequestId ℕ
      → Result ClientError (BatchResponse R)
  unfolding placed converted
  with_number rest start rp b (err e) = err (invalid_request_id e)
  with_number rest start rp b (ok id) = placed rest start rp id b (converted rp)

  -- The HTTP client's loop over the responses, in the order in which they came.
  unfoldable pub place :
      ℕ → List RawResponse → BatchResponse R → Result ClientError (BatchResponse R)
  unfolding with_number
  place start [] b = ok b
  place start (rp ∷ rps) b =
      with_number (λ b'. place start rps b') start rp b (try_parse_inner_as_number rp.id)

  unfoldable pub http_batch_response : ℕ → List RawResponse → Result ClientError (BatchResponse R)
  unfolding place placeholder
  http_batch_response start rps = place start rps (record {
    successful_calls = 0;
    failed_calls = 0;
    responses = replicate (length rps) (err placeholder);
  })

  call_error : Result ErrorObject (Success Json) → Result ClientError (Success Json)
  call_error (ok rp) = ok rp
  call_error (err e) = err (call e)

  parsed : Option R → Result ClientError R
  parsed none = err parse_error
  parsed (some r) = ok r

  -- `request` of the asynchronous client, given the response of the service.
  unfoldable pub request_result : RawResponse → Result ClientError R
  unfolding call_error parsed try_from
  request_result rp = do success ← call_error (try_from rp); parsed (from_str success.result)

  -- `request` of the HTTP client, which checks the id too.
  unfoldable pub http_request_result : RequestId → RawResponse → Result ClientError R
  unfolding call_error parsed try_from RequestId-discrete
  http_request_result id rp = do
    success ← call_error (try_from rp)
    result ← parsed (from_str success.result)
    ite (RequestId-discrete success.id id) (ok result)
        (err (invalid_request_id (not_pending_request (display success.id))))

-- `subscribe`: the ids of the request and of the later unsubscribe call.
unfoldable pub subscribe_ids :
    RequestIdManager
    → String
    → String
    → Result ClientError (RequestId × RequestId) × RequestIdManager
unfolding next_request_id String-discrete
subscribe_ids m subscribe_method unsubscribe_method =
    let (sub, m1) = next_request_id m in
    let (unsub, m2) = next_request_id m1 in
    ite (String-discrete subscribe_method unsubscribe_method)
      (err (register_method (subscription_name_conflict unsubscribe_method)), m)
      (ok (sub, unsub), m2)
