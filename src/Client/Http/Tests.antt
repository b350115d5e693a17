-- ===== src/Client/Http/Tests.antt =====
-- Runs of the HTTP client, and its theorems at small inputs.
use jsonrpseex.Prelude.{
  ℕ, ◌≡◌, ◌+◌, refl, String, String-discrete, ite, Option, none, some, List, [], ◌∷◌, ◌++◌, codes,
  ℕ_discrete, Bool, true, false, ◌==◌, append-nil, if◌then◌else◌,
}
use jsonrpseex.Types.Result.{Result, ok, err, ◌>>=◌}
use jsonrpseex.Types.Error.{Json}
use jsonrpseex.Types.Ids.{RequestId, try_parse_inner_as_number}
use jsonrpseex.Client.Fixtures.{answer}
use jsonrpseex.Client.World.{ClientError, transport}
use jsonrpseex.Client.Ids.{IdKind, RequestIdManager}
use jsonrpseex.Client.Calls.{
  Request, BatchEntry, prepare_batch, http_request_result, http_batch_response,
}
use jsonrpseex.Server.Fixtures.{rt1}
use jsonrpseex.Server.Response.{MethodResponse, notification}
use jsonrpseex.Server.Rpc.{Reader, RpcServiceT, BatchRequestConfig, handle_rpc_call}
use jsonrpseex.Server.Body.{Frame, data_}
use jsonrpseex.Server.Http.{call_with_service}
use jsonrpseex.Client.Http.{
  HttpStack, rejected, Serde, HttpTransportClient, or_parse_error, http_request, http_batch_request,
  http_notification,
}
use jsonrpseex.Client.Http.Arrival.{Arrives}
use jsonrpseex.Client.Http.Exchange.{posted, response_of, Linked, exchange, http_calls-exchange}
use jsonrpseex.Client.Http.Build.{Urls, Builder, Client, http, build}
use jsonrpseex.Client.Http.Build.Lookup.{is_some, json}

abbrev reply : Json → MethodResponse rt1
reply j = record (notification rt1) { json = j }

-- The state is the number of handled bodies.
abbrev service1 : RpcServiceT rt1 ℕ
service1 = record {
  call = λ req st. (reply (codes "{1}"), st + 1);
  batch = λ es st. (reply (codes "[1]"), st + 1);
  notification = λ n st. (reply [], st + 1);
}

abbrev reader1 : Reader rt1
reader1 = record {
  read_call = λ j e.
      some (record { id = RequestId.number 0; method = "get"; params = none; extensions = tt });
  read_notification = λ j e. none;
  read_invalid = λ j. none;
  read_array = λ j. some (j ∷ []);
}

abbrev frames1 : Json → List (Result ℕ Frame)
frames1 j = ok (data_ j) ∷ []

abbrev stack0 : HttpStack
stack0 = record {
  State = ℕ;
  E = ℕ;
  Headers = Unit {0};
  post = λ target headers body st. (err (rejected 404), st);
  is_success = λ status. status == 200;
  limited = λ max frames. frames;
}

-- The network leads to a server that takes bodies of up to eight bytes.
abbrev stack1 : HttpStack
stack1 = record stack0 {
  post = λ target headers body st.
      let (rp, st') =
        call_with_service rt1 reader1 service1 BatchRequestConfig.unlimited stack0.limited 8
          (posted stack0 rt1 reader1 service1 BatchRequestConfig.unlimited 8 tt frames1 body) st in
      (
        ok (response_of stack0 rt1 reader1 service1 BatchRequestConfig.unlimited 8 tt frames1 rp),
        st',
      );
}

abbrev client1 : HttpTransportClient stack1
client1 = record {
  target = codes "http://h/";
  max_request_size = 9;
  max_response_size = 3;
  headers = tt;
}

arrives1 : Arrives stack1 frames1
arrives1 max b j h = (j, [], refl, append-nil j)

linked1 : Linked stack1 rt1 reader1 service1 BatchRequestConfig.unlimited 8 tt frames1 client1
linked1 = record {
  arrives = arrives1;
  posts = λ j st. refl;
  succeeds = refl;
  too_large_fails = refl;
}

abbrev write1 : String → Json
write1 method = b'{' ∷ codes method ++ codes "}"

abbrev serde1 : Serde
serde1 = record {
  write_request = λ r. some (write1 r.method);
  write_batch = λ rs. some (codes "[1]");
  write_notification = λ method params. some (write1 method);
  read_response = λ j. some answer;
  read_batch = λ j. some (answer ∷ []);
}

abbrev ids1 : RequestIdManager
ids1 = record { current_id = 0; id_kind = IdKind.number }

abbrev entries1 : List BatchEntry
entries1 = record { method = "get"; params = none } ∷ []

abbrev requests1 : List Request
requests1 = record { id = RequestId.number 0; method = "get"; params = none } ∷ []

abbrev read1 : Json → Option Json
read1 j = some j

abbrev handled :
    {A : Type 0} → Json → Bool → (Json → Result ClientError A) → ℕ → Result ClientError A × ℕ
handled raw single read st =
    exchange stack1 rt1 reader1 service1 BatchRequestConfig.unlimited 8 tt frames1 client1 raw
      single read st

http_calls-exchange_example :
    (http_request stack1 serde1 client1 false read1 ids1 "get" (some none) 5
      ≡ handled
          (codes "{get}")
          true
          (λ j. do
            rp ← or_parse_error (serde1.read_response j)
            http_request_result read1 (RequestId.number 0) rp)
          5)
    × (http_batch_request stack1 serde1 client1 false read1 ids1 entries1 5
        ≡ handled
            (codes "[1]")
            false
            (λ j. do rps ← or_parse_error (serde1.read_batch j); http_batch_response read1 0 rps)
            5)
unfolding handle_rpc_call prepare_batch try_parse_inner_as_number
http_calls-exchange_example =
    http_calls-exchange stack1 rt1 reader1 service1 BatchRequestConfig.unlimited 8 tt frames1
      client1 linked1 serde1 read1 ids1 "get" none entries1 (record { start = 0; end_ = 1 })
      requests1 (codes "get}") (codes "1]") 5 refl refl refl (true, codes "1}", refl)
      (false, codes "1]", refl)

request_run :
    http_request stack1 serde1 client1 false read1 ids1 "get" (some none) 5 ≡ (ok (b'1' ∷ []), 6)
unfolding http_request call_with_service ℕ_discrete
request_run = refl

-- Too long for the server, which answers with status 413.
too_long_run :
    http_request stack1 serde1 client1 false read1 ids1 "getting" (some none) 5 ≡ (err transport, 5)
unfolding http_request call_with_service
too_long_run = refl

-- A notification that times out does not report the timeout.
notification_timeout :
    http_notification stack1 serde1 client1 true "get" (some none) 5 ≡ (err transport, 6)
unfolding http_notification call_with_service
notification_timeout = refl

-- A map of headers: its list, and what it has under a name.
abbrev Map1 : Type 0
Map1 = List (Option String × List ℕ) × (String → Option (List ℕ))

abbrev insert1 : String → List ℕ → Map1 → Map1
insert1 key value (l, f) =
    ((some key, value) ∷ l, λ k. ite (String-discrete k key) (some value) (f k))

abbrev urls1 : Urls
urls1 = record {
  Url = Bool;
  HeaderValue = List ℕ;
  Headers = Map1;
  parse = λ t. ok true;
  host_str = λ u. some (codes "h");
  scheme = λ u. "http";
  password = λ u. if u then some (codes "p") else none;
  username = λ u. codes "u";
  without_fragment = λ u. u;
  without_password = λ u. false;
  without_username = λ u. u;
  as_str = λ u. if u then codes "http://u:p@h/" else codes "http://h/";
  base64 = λ t. t;
  from_static = λ t. codes t;
  header_value = λ t. some t;
  no_headers = ([], λ k. none);
  insert = insert1;
  contains_key = λ key h. is_some (h.1 key);
  into_iter = λ h. h.0;
}

abbrev builder1 : Builder urls1 ℕ
builder1 = record {
  max_request_size = 9;
  max_response_size = 3;
  headers = ((some "accept", codes "*") ∷ [], λ k. none);
}

abbrev client2 : Client urls1 ℕ
client2 = record {
  target = codes "http://h/";
  backend = http;
  max_request_size = 9;
  max_response_size = 3;
  headers = insert1 "authorization" (codes "Basic u:p") (
      insert1 "accept" (codes "*") (
        insert1 "accept" (codes "application/json")
          (insert1 "content-type" (codes "application/json") ([], λ k. none))));
}

-- The second value of a header that the caller has set is left out.
second_value_run :
    build urls1 ℕ
      (record builder1 {
        headers = ((some "accept", codes "*") ∷ (none, codes "x") ∷ [], λ k. none);
      })
      (codes "http://u:p@h/")
    ≡ ok client2
unfolding build String-discrete
second_value_run = refl
