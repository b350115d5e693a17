-- ===== src/Client/Service/Tests.antt =====
-- Runs of the calls of the asynchronous client, and their theorem at small inputs.
use jsonrpseex.Prelude.{◌≡◌, refl, Option, none, some, List, [], ◌∷◌, true, false}
use jsonrpseex.Types.Result.{ok}
use jsonrpseex.Types.Ids.{try_parse_inner_as_number}
use jsonrpseex.Types.Error.{Json}
use jsonrpseex.Client.World.{done, fails, restart_needed, transport, request_timeout}
use jsonrpseex.Client.Ids.{IdKind, RequestIdManager}
use jsonrpseex.Client.Calls.{BatchEntry}
use jsonrpseex.Client.Fixtures.{rt0, answer}
use jsonrpseex.Client.Service.{Background, not_sent, dropped, replied}
use jsonrpseex.Client.Service.Calls.{
  client_request, client_batch_request, client_notification, client_subscribe,
}
use jsonrpseex.Client.Service.Disconnected.{IsShown, client_calls-IsShown}

-- A background task that is alive for a call, and gone for all else.
abbrev back0 : Background rt0
back0 = record {
  State = Unit {0};
  ask_call = λ f st. (replied (ok answer), st);
  ask_batch = λ f st. (dropped, st);
  ask_subscribe = λ f st. (not_sent, st);
  ask_register = λ f st. (not_sent, st);
  tell = λ f st. (false, st);
  write_request = λ r. some [];
  write_batch = λ rs. some [];
  write_notification = λ n p. some [];
  write_sub_id = λ i. some [];
}

abbrev ids0 : RequestIdManager
ids0 = record { current_id = 0; id_kind = IdKind.number }

abbrev entries0 : List BatchEntry
entries0 = record { method = "add"; params = none } ∷ []

abbrev read0 : Json → Option Json
read0 j = some j

client_calls-IsShown_example :
    IsShown (client_request rt0 back0 false (some transport) read0 ids0 "add" (some none) tt)
    × IsShown (client_batch_request rt0 back0 false (some transport) read0 ids0 entries0 tt)
    × IsShown (client_notification rt0 back0 false (some transport) "add" (some none) tt)
    × IsShown (client_subscribe rt0 back0 false (some transport) ids0 "add" (some none) "stop" tt)
client_calls-IsShown_example =
    client_calls-IsShown rt0 back0 false (some transport) ids0 "add" (some none) tt read0 entries0
      "stop"

request_run : client_request rt0 back0 false none read0 ids0 "add" (some none) tt ≡ done (b'1' ∷ [])
unfolding client_request
request_run = refl

batch_run :
    client_batch_request rt0 back0 false (some transport) read0 ids0 entries0 tt
    ≡ fails (restart_needed transport)
unfolding client_batch_request try_parse_inner_as_number
batch_run = refl

timeout_run :
    client_notification rt0 back0 true (some transport) "add" (some none) tt ≡ fails request_timeout
unfolding client_notification
timeout_run = refl
