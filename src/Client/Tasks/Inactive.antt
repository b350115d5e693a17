-- ===== src/Client/Tasks/Inactive.antt =====
-- The inactivity check over all that the read task sees.
use jsonrpseex.Prelude.{
  ℕ, suc, ◌-◌, ◌+◌, ◌≤◌, ◌<◌, ◌≡◌, ◌≢◌, refl, leb, none, some, List, [], ◌∷◌, ◌++◌, Bool, true,
  false, if◌then◌else◌, arith, Bool-cases, inl, inr,
}
use jsonrpseex.Client.World.{Runtime, World, Outcome, done, fails, panics}
use jsonrpseex.Client.Frontend.{FrontToBack}
use jsonrpseex.Client.Backend.{handle_backend_messages}
use jsonrpseex.Client.Tasks.{
  Watch, InactivityCheck, enabled, is_inactive, miss, mark_as_active, ReadEvent, message, tick,
  handed_over, Reading, Read, read_loop, after_message, after_tick,
}

-- The ticks that come when nothing was received for the inactive duration.
unfoldable pub stale_ticks : ℕ → ℕ → List ReadEvent → ℕ
stale_ticks dur last [] = 0
stale_ticks dur last (ReadEvent.closed ∷ es) = stale_ticks dur last es
stale_ticks dur last (handed_over ∷ es) = stale_ticks dur last es
stale_ticks dur last (message now i ∷ es) = stale_ticks dur now es
stale_ticks dur last (tick now ∷ es) =
    (if leb dur (now - last) then 1 else 0) + stale_ticks dur last es

module _ (rt : Runtime) where
  message_waits :
      (rest : Reading rt → Read rt) (s : Reading rt)
      (a : Outcome (List (FrontToBack rt)) × World rt)
      → (after_message rt rest s a).0 ≡ none
      → (s' : Reading rt) × (s'.check ≡ s.check) × ((rest s').0 ≡ none)
  unfolding after_message
  message_waits rest s (done messages, w) h =
      (record s { world = w; unsubscribes = s.unsubscribes ++ messages }, refl, h)
  message_waits rest s (fails e, w) h = absurd (cc h)
  message_waits rest s (panics, w) h = absurd (cc h)

  tick_waits :
      (rest : Reading rt → Read rt) (s : Reading rt) (a : Bool × InactivityCheck)
      → (after_tick rt rest s a).0 ≡ none
      → (a.0 ≡ false) × ((rest (record s { check = a.1 })).0 ≡ none)
  unfolding after_tick
  tick_waits rest s (true, c) h = absurd (cc h)
  tick_waits rest s (false, c) h = (refl, h)

  -- A read task that still waits has seen fewer ticks without activity than the check allows.
  still_reading :
      (es : List ReadEvent) (s : Reading rt) (c : Watch)
      → s.check ≡ enabled c
      → c.count < c.max_count
      → (read_loop rt es s).0 ≡ none
      → c.count + stale_ticks c.inactive_dur c.last_active es < c.max_count
  unfolding read_loop is_inactive miss mark_as_active stale_ticks
  still_reading [] s c h l w = omega arith
  still_reading (ReadEvent.closed ∷ es) s c h l w = absurd (cc w)
  still_reading (handed_over ∷ es) s c h l w = still_reading es s c h l w
  still_reading (message now none ∷ es) s c h l w = absurd (cc w)
  still_reading (message now (some i) ∷ es) s c h l w =
      let (s', e, w') =
        message_waits (λ x. read_loop rt es x) (record s { check = mark_as_active now s.check })
          (handle_backend_messages rt i s.world) w in
      still_reading es s' (record c { last_active = now }) (ground (arith, e, h)) l w'
  still_reading (tick now ∷ es) s c h l w =
      let (f, w') = tick_waits (λ x. read_loop rt es x) s (is_inactive now s.check) w in
      elim (Bool-cases (leb c.inactive_dur (now - c.last_active))) [
        | inl b ↦
            let r =
              still_reading es (record s { check = (is_inactive now s.check).1 })
                (record c { count = suc c.count }) (ground (arith, b, h)) (ground (arith, b, h, f))
                w' in
            ground (arith, b, r)
        | inr b ↦
            let r =
              still_reading es (record s { check = (is_inactive now s.check).1 }) c
                (ground (arith, b, h)) l w' in
            ground (arith, b, r)
      ]

  -- Once the ticks at which the server was silent for the inactive duration have reached the maximum
  -- of failures, the read task has ended, whatever it has received between them.
  pub read_loop-stale_ticks :
      (es : List ReadEvent) (s : Reading rt) (c : Watch)
      → s.check ≡ enabled c
      → c.count < c.max_count
      → c.max_count ≤ c.count + stale_ticks c.inactive_dur c.last_active es
      → (read_loop rt es s).0 ≢ none
  read_loop-stale_ticks es s c h l m w =
      let b : c.count + stale_ticks c.inactive_dur c.last_active es < c.max_count =
        still_reading es s c h l w in
      omega arith
