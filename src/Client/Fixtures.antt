-- ===== src/Client/Fixtures.antt =====
-- Small states and messages of the client.
use jsonrpseex.Prelude.{
  ℕ, zero, suc, ◌==◌, Option, none, some, List, [], ◌∷◌, true, false, if◌then◌else◌, not,
}
use jsonrpseex.Types.Ids.{RequestId, SubscriptionId, num}
use jsonrpseex.Types.Error.{Json}
use jsonrpseex.Types.Response
use jsonrpseex.Types.Response.{success}
use jsonrpseex.Client.Manager
use jsonrpseex.Client.Manager.{Kind, Range}
use jsonrpseex.Client.World.{Runtime, RawResponse, World, Sender, TrySend, start}
use jsonrpseex.Client.Frontend.{FrontToBack}
use jsonrpseex.Client.Backend.{Incoming, received, bytes, Loop}
use jsonrpseex.Client.Ids.{IdKind, RequestIdManager}

-- An answer of the server to request 0.
abbrev pub answer : RawResponse
answer = record {
  jsonrpc = some Response.two_point_zero;
  payload = success (b'1' ∷ []);
  id = RequestId.number 0;
  extensions = tt;
}

-- An answer to request 1.
abbrev pub second : RawResponse
second = record answer { id = RequestId.number 1 }

abbrev pub read_answer : Json → Option RawResponse
read_answer [] = none
read_answer (n ∷ j) = if n == 1 then some answer else if n == 3 then some second else none

abbrev pub read_close : Json → Option SubscriptionId
read_close [] = none
read_close (n ∷ j) = if n == 9 then some (num 5) else none

abbrev pub raw0 : Json
raw0 = 1 ∷ []

abbrev pub raw1 : Json
raw1 = 3 ∷ []

-- A channel is its free space; a oneshot's receiver is gone if it is 1.
abbrev pub use_space : ℕ → Json → TrySend × ℕ
use_space zero j = (TrySend.full, 0)
use_space (suc n) j = (TrySend.sent, n)

abbrev pub rt0 : Runtime
rt0 = record {
  Chan = ℕ;
  Oneshot = ℕ;
  channel = λ n. n;
  try_send = use_space;
  is_open = λ o. not (o == 1);
  accepts = λ w j. true;
  read_response = read_answer;
  read_sub_response = λ j. none;
  read_sub_error = read_close;
  read_notification = λ j. some ("closed", none);
  read_array = λ j. some (raw0 ∷ raw1 ∷ []);
  read_sub_id = λ j. some (num 5);
  write_unsubscribe = λ u m s. some (2 ∷ []);
  null_json = [];
  show_range = λ a b. "range";
  show_unparsed = λ j. "unparsed";
}

abbrev pub sink : Sender rt0
sink = record { id = 0; inner = 1 }

abbrev pub with_requests : List (RequestId × Kind ℕ (Sender rt0)) → World rt0
with_requests l = record (start rt0 4) {
  manager = record Manager.init { requests = record { entries = l } };
}

abbrev pub calling : World rt0
calling = with_requests ((RequestId.number 0, Kind.pending_method_call (some 7)) ∷ [])

abbrev pub subscribing : World rt0
subscribing = with_requests (
    (RequestId.number 0, Kind.pending_subscription (RequestId.number 1) 1 "stop")
    ∷ (RequestId.number 1, Kind.pending_method_call none)
    ∷ [])

abbrev pub listening : World rt0
listening = record (start rt0 4) {
  manager = record Manager.init {
    requests = record {
      entries = (RequestId.number 0, Kind.subscription (RequestId.number 1) sink "stop") ∷ [];
    };
    subscriptions = record { entries = (num 5, RequestId.number 0) ∷ [] };
  };
}

abbrev pub two : Range
two = record { start = 0; end_ = 2 }

abbrev pub batching : World rt0
batching = record (start rt0 4) {
  manager = record Manager.init { batches = record { entries = (two, 7) ∷ [] } };
}

abbrev pub subscribe0 : FrontToBack rt0
subscribe0 = FrontToBack.subscribe (record {
  raw = raw0;
  subscribe_id = RequestId.number 0;
  unsubscribe_id = RequestId.number 1;
  unsubscribe_method = "stop";
  send_back = 0;
})

abbrev pub answer0 : Incoming
answer0 = received (bytes (b'{' ∷ []))

abbrev pub m0 : Manager.RequestManager ℕ ℕ
m0 = Manager.init

abbrev pub loop0 : Loop rt0
loop0 = record { world = listening; batch = []; range = none; got_notif = false; messages = [] }

abbrev pub close0 : Json
close0 = 9 ∷ []

abbrev pub ids0 : RequestIdManager
ids0 = record { current_id = 0; id_kind = IdKind.string }
