-- ===== src/Client/Tasks.antt =====
-- core/src/client/async_client/mod.rs and utils.rs: the two tasks of the client's background, which
-- read from the server and send for the front end, over the events that they wait for.
pub mod Inactive
pub mod Safety
mod Tests
use jsonrpseex.Prelude.{
  ℕ, suc, ◌-◌, leb, Option, none, some, List, [], ◌∷◌, ◌++◌, Bool, true, false, if◌then◌else◌,
}
use jsonrpseex.Client.World.{Runtime, World, Outcome, done, fails, panics, ClientError, transport}
use jsonrpseex.Client.Frontend.{FrontToBack, handle_frontend_messages}
use jsonrpseex.Client.Backend.{Incoming, handle_backend_messages}

-- The fields of `InactivityCheck::Enabled`; times are numbers of a clock that does not run back. As
-- the loop ends when `count` reaches `max_count`, it stays in the range of a `usize`.
pub record Watch : Type 0 where
  pub inactive_dur : ℕ
  pub last_active : ℕ
  pub count : ℕ
  pub max_count : ℕ

pub data InactivityCheck : Type 0 where
  disabled : InactivityCheck
  enabled : Watch → InactivityCheck

-- `InactivityCheck::new` at the time `now`.
abbrev pub new : ℕ → ℕ → ℕ → InactivityCheck
new now inactive_dur max_count =
    enabled
      (record { inactive_dur = inactive_dur; last_active = now; count = 0; max_count = max_count })

unfoldable pub miss : ℕ → Watch → Watch
miss now c =
    if leb c.inactive_dur (now - c.last_active) then record c { count = suc c.count } else c

unfoldable pub is_inactive : ℕ → InactivityCheck → Bool × InactivityCheck
unfolding miss
is_inactive now disabled = (false, disabled)
is_inactive now (enabled c) = let c' = miss now c in (leb c'.max_count c'.count, enabled c')

unfoldable pub mark_as_active : ℕ → InactivityCheck → InactivityCheck
mark_as_active now disabled = disabled
mark_as_active now (enabled c) = enabled (record c { last_active = now })

-- What the read task waits for: the end of the receiver of `close_tx`, a message that was handed to
-- the send task, the next item of the transport at a time, or a tick of the inactivity check.
pub data ReadEvent : Type 0 where
  closed handed_over : ReadEvent
  message : ℕ → Option Incoming → ReadEvent
  tick : ℕ → ReadEvent

-- What the send task waits for; of a ping, whether the transport could send it.
pub data SendEvent (rt : Runtime) : Type 0 where
  closed : SendEvent rt
  front : Option (FrontToBack rt) → SendEvent rt
  ping : Bool → SendEvent rt

module _ (rt : Runtime) where
  -- The state of the read task, with the messages that it has for the send task.
  pub record Reading : Type 0 where
    pub world : World rt
    pub check : InactivityCheck
    pub unsubscribes : List (FrontToBack rt)

  -- How a loop ended, or nothing if it still waits for an event.
  abbrev pub Read : Type 0
  Read = Option (Outcome (Unit {0})) × Reading

  after_message : (Reading → Read) → Reading → Outcome (List (FrontToBack rt)) × World rt → Read
  after_message rest s (done messages, w) =
      rest (record s { world = w; unsubscribes = s.unsubscribes ++ messages })
  after_message rest s (fails e, w) = (some (fails e), record s { world = w })
  after_message rest s (panics, w) = (some panics, record s { world = w })

  after_tick : (Reading → Read) → Reading → Bool × InactivityCheck → Read
  after_tick rest s (true, c) = (some (fails transport), record s { check = c })
  after_tick rest s (false, c) = rest (record s { check = c })

  unfoldable pub read_loop : List ReadEvent → Reading → Read
  unfolding after_message after_tick is_inactive mark_as_active
  read_loop [] s = (none, s)
  read_loop (ReadEvent.closed ∷ es) s = (some (done tt), s)
  read_loop (handed_over ∷ es) s = read_loop es s
  read_loop (message now none ∷ es) s =
      (some (done tt), record s { check = mark_as_active now s.check })
  read_loop (message now (some i) ∷ es) s =
      after_message (λ s'. read_loop es s') (record s { check = mark_as_active now s.check })
        (handle_backend_messages rt i s.world)
  read_loop (tick now ∷ es) s = after_tick (λ s'. read_loop es s') s (is_inactive now s.check)

  abbrev pub SendState : Type 0
  SendState = Option (Outcome (Unit {0})) × World rt

  after_front : (World rt → SendState) → Outcome (Unit {0}) × World rt → SendState
  after_front rest (done _, w) = rest w
  after_front rest (fails _, w) = (some (fails transport), w)
  after_front rest (panics, w) = (some panics, w)

  unfoldable pub send_loop : List (SendEvent rt) → World rt → SendState
  unfolding after_front
  send_loop [] w = (none, w)
  send_loop (SendEvent.closed ∷ es) w = (some (done tt), w)
  send_loop (front none ∷ es) w = (some (done tt), w)
  send_loop (front (some m) ∷ es) w =
      after_front (λ w'. send_loop es w') (handle_frontend_messages rt m w)
  send_loop (ping true ∷ es) w = send_loop es w
  send_loop (ping false ∷ es) w = (some (fails transport), w)

-- The reason of a disconnect, for the front end: of the first result of a task, unless the client is
-- dropped before.
unfoldable pub wait_for_shutdown :
    Option (Outcome (Unit {0})) → Option ClientError → Option ClientError
wait_for_shutdown (some (fails e)) reason = some e
wait_for_shutdown (some (done _)) reason = reason
wait_for_shutdown (some panics) reason = reason
wait_for_shutdown none reason = reason
