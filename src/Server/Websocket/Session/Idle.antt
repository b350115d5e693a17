-- ===== src/Server/Websocket/Session/Idle.antt =====
-- A connection whose peer is silent is closed.
use native.Mathlib.Nat.{lt_of_mul-lt-mul_left}
use jsonrpseex.Prelude.{
  ℕ, zero, suc, ◌+◌, ◌-◌, ◌*◌, ◌≤◌, ◌<◌, ◌≡◌, inl, inr, arith, some, List, [], ◌∷◌, ltb, leb,
  Bool-cases,
}
use jsonrpseex.Server.Runtime.{Runtime}
use jsonrpseex.Server.Queue.{Queue}
use jsonrpseex.Server.Websocket.Session.{
  PingConfig, Event, tick, Watch, Shutdown, shutdown, session, Session, try_recv,
}

-- `n` ticks of the interval, from the `i`-th after `start` on.
unfoldable pub ticks : ℕ → ℕ → ℕ → ℕ → List (ℕ × Event)
ticks start interval i zero = []
ticks start interval i (suc n) = (start + interval * i, tick) ∷ ticks start interval (suc i) n

module _ (rt : Runtime) (q : Queue) (p : PingConfig) (max_request_body_size : ℕ) where
  unfoldable pub closed_idle : q.Channel → Session rt q
  closed_idle queue = record {
    end = shutdown Shutdown.connection_closed;
    started = [];
    queue = queue;
  }

  ticks_close :
      (n i k : ℕ) (w : Watch) (queue : q.Channel)
      → w.missed_pings < p.max_failures
      → p.inactive_limit < p.ping_interval * k
      → p.max_failures + (k - i) ≤ w.missed_pings + n
      → session rt q
          (some p)
          max_request_body_size
          (ticks w.last_active p.ping_interval i n)
          w
          queue
        ≡ closed_idle queue
  unfolding session try_recv ticks closed_idle
  ticks_close zero i k w queue m late enough = absurd (omega arith)
  ticks_close (suc n) i k w queue m late enough =
      let now = w.last_active + p.ping_interval * i in
      elim (Bool-cases (ltb p.inactive_limit (now - w.last_active))) [
        | inl t ↦ elim (Bool-cases (leb p.max_failures (w.missed_pings + 1))) [
          | inl c ↦ ground (arith, t, c)
          | inr c ↦ ground (
            arith,
            t,
            c,
            ticks_close n (suc i) k (record w { missed_pings = w.missed_pings + 1 }) queue
                (ground (arith, c)) late (omega (arith, enough)),
          )
        ]
        | inr f ↦ ground (
          arith,
          f,
          ticks_close n (suc i) k w queue m late (
              omega (
                arith,
                enough,
                lt_of_mul-lt-mul_left p.ping_interval {m = i} {n = k} (ground (arith, f, late)),
              )),
        )
      ]

  -- A silent connection is closed: if the peer was last heard of when the connection began to wait,
  -- fewer pings than `max_failures` were missed before, and the `k`-th tick is past the limit on
  -- inactivity, then among any `n` ticks with `max_failures + k ≤ missed_pings + n + 1` the loop
  -- ends the session, with the queue as it was and no task started.
  pub session_idle :
      (n k : ℕ) (w : Watch) (queue : q.Channel)
      → w.missed_pings < p.max_failures
      → p.inactive_limit < p.ping_interval * k
      → p.max_failures + k ≤ w.missed_pings + n + 1
      → session rt q
          (some p)
          max_request_body_size
          (ticks w.last_active p.ping_interval 1 n)
          w
          queue
        ≡ closed_idle queue
  session_idle n k w queue m late enough = ticks_close n 1 k w queue m late (
      omega (
        arith,
        enough,
        lt_of_mul-lt-mul_left p.ping_interval {m = 0} {n = k} (omega (arith, late)),
      ))
