-- ===== src/Server/Websocket/Session.antt =====
-- server/src/transport/ws.rs: the loop of `background_task`, and that of `try_recv` inside it. What
-- the loops wait for comes as a list of events with their times.
pub mod Idle
use jsonrpseex.Prelude.{
  ℕ, ◌+◌, ◌-◌, Option, none, some, List, [], ◌∷◌, Bool, true, false, ltb, leb, if◌then◌else◌,
}
use jsonrpseex.Types.Ids.{RequestId}
use jsonrpseex.Types.Error
use jsonrpseex.Types.Error.{ErrorObject, Json}
use jsonrpseex.Server.Runtime.{Runtime}
use jsonrpseex.Server.Response.{error_json, reject_too_big_request}
use jsonrpseex.Server.Queue.{Queue}
use jsonrpseex.Server.Websocket.{SokettoError, closed, other, message_too_large}

-- server/src/server.rs; the times are in one unit.
pub record PingConfig : Type 0 where
  pub ping_interval : ℕ
  pub inactive_limit : ℕ
  pub max_failures : ℕ

-- The stream of the socket yields data, a pong or an error, or ends; the interval ticks; or the
-- server is stopped.
pub data Event : Type 0 where
  data_ : Json → Event
  pong stream_end tick stopped : Event
  error : SokettoError → Event

pub data Receive : Type 0 where
  connection_closed stopped : Receive
  err : SokettoError → Receive
  ok : Json → Receive

pub data Shutdown : Type 0 where
  stopped connection_closed : Shutdown

-- When the peer was last heard of, since the last entry into `try_recv`, and the missed pings.
pub record Watch : Type 0 where
  pub last_active : ℕ
  pub missed_pings : ℕ

pub data Turn : Type 0 where
  wait : Watch → Turn
  received : Receive → ℕ → Turn

missed : PingConfig → Watch → Turn
missed p w =
    if leb p.max_failures (w.missed_pings + 1)
    then received connection_closed (w.missed_pings + 1)
    else wait (record w { missed_pings = w.missed_pings + 1 })

inactivity_check : Option PingConfig → ℕ → Watch → Turn
unfolding missed
inactivity_check none now w = wait w
inactivity_check (some p) now w =
    if ltb p.inactive_limit (now - w.last_active) then missed p w else wait w

-- One turn of the loop of `try_recv`, at the time `now`; what is received comes with the count of
-- missed pings.
unfoldable pub try_recv : Option PingConfig → ℕ → Event → Watch → Turn
unfolding inactivity_check
try_recv ping now (data_ bytes) w = received (ok bytes) w.missed_pings
try_recv ping now pong w = wait (record w { last_active = now })
try_recv ping now stream_end w = received connection_closed w.missed_pings
try_recv ping now tick w = inactivity_check ping now w
try_recv ping now stopped w = received Receive.stopped w.missed_pings
try_recv ping now (error e) w = received (err e) w.missed_pings

-- How the loop ended, if it did.
pub data SessionEnd : Type 0 where
  running : SessionEnd
  shutdown : Shutdown → SessionEnd
  failed : SokettoError → SessionEnd

module _ (rt : Runtime) (q : Queue) where
  -- The messages that a task was started for, in order, and the queue.
  pub record Session : Type 0 where
    pub end : SessionEnd
    pub started : List Json
    pub queue : q.Channel

  ended : SessionEnd → q.Channel → Session
  ended e queue = record { end = e; started = []; queue = queue }

  module _ (ping : Option PingConfig) (max_request_body_size : ℕ) where
    abbrev Rest : Type 0
    Rest = Watch → q.Channel → Session

    too_large : Rest → Watch → Bool × q.Channel → Session
    unfolding ended
    too_large rest w (true, queue) = rest w queue
    too_large rest w (false, queue) = ended (shutdown connection_closed) queue

    on_error : Rest → SokettoError → Watch → q.Channel → Session
    unfolding too_large ended reject_too_big_request error_json
    on_error rest closed w queue = ended (shutdown connection_closed) queue
    on_error rest (message_too_large current maximum) w queue = too_large rest w (
        q.send queue
          (error_json rt RequestId.null (reject_too_big_request rt max_request_body_size)))
    on_error rest other w queue = ended (failed other) queue

    on_receive : Rest → Receive → Watch → q.Channel → Session
    unfolding on_error ended
    on_receive rest connection_closed w queue = ended (shutdown connection_closed) queue
    on_receive rest stopped w queue = ended (shutdown stopped) queue
    on_receive rest (err e) w queue = on_error rest e w queue
    on_receive rest (ok bytes) w queue =
        let s = rest w queue in record s { started = bytes ∷ s.started }

    on_turn : Rest → ℕ → Turn → q.Channel → Session
    unfolding on_receive
    on_turn rest now (wait w) queue = rest w queue
    on_turn rest now (received r missed_pings) queue =
        on_receive rest r (record { last_active = now; missed_pings = missed_pings }) queue

    -- The loop of `background_task`; each round enters `try_recv` anew, at the time of what ended
    -- the round before.
    unfoldable pub session : List (ℕ × Event) → Watch → q.Channel → Session
    unfolding on_turn try_recv ended
    session [] w queue = ended running queue
    session ((now, e) ∷ events) w queue =
        on_turn (λ w' queue'. session events w' queue') now (try_recv ping now e w) queue
