-- ===== src/Client/Tasks/Tests.antt =====
-- Runs of the read task of the client on small inputs.
use jsonrpseex.Prelude.{◌≢◌, none, some, List, [], ◌∷◌, refl, arith}
use jsonrpseex.Client.World.{start}
use jsonrpseex.Client.Backend.{received, pong}
use jsonrpseex.Client.Tasks.{
  Watch, enabled, ReadEvent, message, tick, handed_over, Reading, read_loop,
}
use jsonrpseex.Client.Tasks.Inactive.{stale_ticks, read_loop-stale_ticks}
use jsonrpseex.Client.Fixtures.{rt0}

-- Two failures are allowed, after 40 units of time each.
abbrev watch0 : Watch
watch0 = record { inactive_dur = 40; last_active = 0; count = 0; max_count = 2 }

-- The server is silent until the first tick and after the message.
abbrev silences : List ReadEvent
silences = tick 40 ∷ message 50 (some (received pong)) ∷ tick 80 ∷ handed_over ∷ tick 120 ∷ []

abbrev reading0 : Reading rt0
reading0 = record { world = start rt0 4; check = enabled watch0; unsubscribes = [] }

read_loop-stale_ticks_example : (read_loop rt0 silences reading0).0 ≢ none
unfolding stale_ticks
read_loop-stale_ticks_example =
    read_loop-stale_ticks rt0 silences reading0 watch0 refl (ground arith) (ground arith)
