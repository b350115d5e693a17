-- ===== src/Client/Calls/Tests.antt =====
-- Runs of the clients' calls on small inputs.
use jsonrpseex.Prelude.{◌+◌, ◌≡◌, ◌⊎◌, ℕ, map, refl, none, some, List, [], ◌∷◌, length, replicate}
use jsonrpseex.Types.Result.{ok, err}
use jsonrpseex.Types.Ids.{RequestId}
use jsonrpseex.Types.Error.{Json, ErrorObject}
use jsonrpseex.Types.Response.{success}
use jsonrpseex.Types.Ids.{try_parse_inner_as_number}
use jsonrpseex.Client.Ids.{RequestIdManager, IdKind}
use jsonrpseex.Client.World.{RawResponse}
use jsonrpseex.Client.Helpers
use jsonrpseex.Client.Helpers.{fill}
use jsonrpseex.Client.Fixtures.{answer}
use jsonrpseex.Client.Calls.Results.{into_ok, errors, into_ok-collect}
use jsonrpseex.Client.Calls.{
  BatchEntry, BatchResponse, http_batch_response, collect, pushed, converted,
}
use jsonrpseex.Client.Calls.HttpBatch.{Converts, http_batch_response-fill}

abbrev ids1 : RequestIdManager
ids1 = record { current_id = 5; id_kind = IdKind.number }

abbrev entry1 : BatchEntry
entry1 = record { method = "a"; params = none }

abbrev entry2 : BatchEntry
entry2 = record { method = "b"; params = none }

abbrev response1 : RawResponse
response1 = record {
  jsonrpc = none;
  payload = success (b'1' ∷ []);
  id = RequestId.number 6;
  extensions = tt;
}

abbrev response2 : RawResponse
response2 = record {
  jsonrpc = none;
  payload = success (b'2' ∷ []);
  id = RequestId.number 5;
  extensions = tt;
}

abbrev responses1 : BatchResponse Json
responses1 = record {
  successful_calls = 2;
  failed_calls = 0;
  responses = ok (b'2' ∷ []) ∷ ok (b'1' ∷ []) ∷ [];
}

http_batch_response-fill_example :
    (filled : List RawResponse) × (fill 5
        (response1 ∷ response2 ∷ [])
        (replicate (length (response1 ∷ response2 ∷ [])) Helpers.placeholder)
      ≡ ok filled)
    × Converts some filled responses1.responses
    × (2 + 0 ≡ length (response1 ∷ response2 ∷ []))
unfolding http_batch_response try_parse_inner_as_number
http_batch_response-fill_example =
    http_batch_response-fill some 5 (response1 ∷ response2 ∷ []) responses1 refl

abbrev batch1 : BatchResponse ℕ
batch1 = record { successful_calls = 1; failed_calls = 0; responses = ok 1 ∷ [] }

into_ok-collect_example :
    ((xs : List ℕ) × (into_ok batch1 ≡ ok xs) × (map ok xs ≡ batch1.responses))
    ⊎ ((e : ErrorObject) × (es : List ErrorObject) × (into_ok batch1 ≡ err (e ∷ es))
        × (errors batch1.responses ≡ e ∷ es))
unfolding collect pushed converted
into_ok-collect_example = into_ok-collect (λ j. some (length j)) (answer ∷ []) batch1 refl
