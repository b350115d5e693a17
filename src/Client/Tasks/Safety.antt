-- ===== src/Client/Tasks/Safety.antt =====
-- The two tasks keep the request manager well formed and never panic.
use jsonrpseex.Prelude.{Bool, ◌≢◌, refl, Option, none, some, List, [], ◌∷◌, ◌++◌, true, false}
use jsonrpseex.Client.World.{Runtime, World, Outcome, done, fails, panics}
use jsonrpseex.Client.Frontend.{FrontToBack, handle_frontend_messages}
use jsonrpseex.Client.Frontend.Safety.{
  handle_frontend_messages-IsSafe, handle_frontend_messages-ne-panics,
}
use jsonrpseex.Client.Backend.{handle_backend_messages}
use jsonrpseex.Client.Backend.Safety.{handle_backend_messages-Fine}
use jsonrpseex.Client.Manager.WellFormed.{IsWellFormed}
use jsonrpseex.Client.Tasks.{
  ReadEvent, message, tick, handed_over, Reading, Read, SendState, InactivityCheck, read_loop,
  after_message, after_tick, SendEvent, front, ping, send_loop, after_front, mark_as_active,
  is_inactive,
}

module _ (rt : Runtime) where
  abbrev IsFine : {A B : Type 0} → Option (Outcome A) × B → (B → World rt) → Type 0
  IsFine r world = (r.0 ≢ some panics) × IsWellFormed (world r.1).manager

  message-IsFine :
      (rest : Reading rt → Read rt) (s : Reading rt)
      (a : Outcome (List (FrontToBack rt)) × World rt)
      → ((s' : Reading rt) → IsWellFormed s'.world.manager → IsFine (rest s') (λ x. x.world))
      → (a.0 ≢ panics) × IsWellFormed a.1.manager
      → IsFine (after_message rt rest s a) (λ x. x.world)
  unfolding after_message
  message-IsFine rest s (done messages, w) k f =
      k (record s { world = w; unsubscribes = s.unsubscribes ++ messages }) f.1
  message-IsFine rest s (fails e, w) k f = (λ h. absurd (cc h), f.1)
  message-IsFine rest s (panics, w) k f = absurd (f.0 refl)

  tick-IsFine :
      (rest : Reading rt → Read rt) (s : Reading rt) (a : Bool × InactivityCheck)
      → ((s' : Reading rt) → IsWellFormed s'.world.manager → IsFine (rest s') (λ x. x.world))
      → IsWellFormed s.world.manager
      → IsFine (after_tick rt rest s a) (λ x. x.world)
  unfolding after_tick
  tick-IsFine rest s (true, c) k f = (λ h. absurd (cc h), f)
  tick-IsFine rest s (false, c) k f = k (record s { check = c }) f

  front-IsFine :
      (rest : World rt → SendState rt) (a : Outcome (Unit {0}) × World rt)
      → ((w : World rt) → IsWellFormed w.manager → IsFine (rest w) (λ x. x))
      → (a.0 ≢ panics) × IsWellFormed a.1.manager
      → IsFine (after_front rt rest a) (λ x. x)
  unfolding after_front
  front-IsFine rest (done u, w) k f = k w f.1
  front-IsFine rest (fails e, w) k f = (λ h. absurd (cc h), f.1)
  front-IsFine rest (panics, w) k f = absurd (f.0 refl)

  -- The read task never panics, and keeps the request manager well formed.
  pub read_loop-IsWellFormed :
      (es : List ReadEvent) (s : Reading rt)
      → IsWellFormed s.world.manager
      → let (r, s') = read_loop rt es s in (r ≢ some panics) × IsWellFormed s'.world.manager
  unfolding read_loop
  read_loop-IsWellFormed [] s wf = (λ h. absurd (cc h), wf)
  read_loop-IsWellFormed (ReadEvent.closed ∷ es) s wf = (λ h. absurd (cc h), wf)
  read_loop-IsWellFormed (handed_over ∷ es) s wf = read_loop-IsWellFormed es s wf
  read_loop-IsWellFormed (message now none ∷ es) s wf = (λ h. absurd (cc h), wf)
  read_loop-IsWellFormed (message now (some i) ∷ es) s wf =
      message-IsFine (λ x. read_loop rt es x) (record s { check = mark_as_active now s.check })
        (handle_backend_messages rt i s.world) (λ x f. read_loop-IsWellFormed es x f)
        (handle_backend_messages-Fine rt i s.world wf)
  read_loop-IsWellFormed (tick now ∷ es) s wf =
      tick-IsFine (λ x. read_loop rt es x) s (is_inactive now s.check)
        (λ x f. read_loop-IsWellFormed es x f) wf

  -- The send task never panics, and keeps the request manager well formed.
  pub send_loop-IsWellFormed :
      (es : List (SendEvent rt)) (w : World rt)
      → IsWellFormed w.manager
      → let (r, w') = send_loop rt es w in (r ≢ some panics) × IsWellFormed w'.manager
  unfolding send_loop
  send_loop-IsWellFormed [] w wf = (λ h. absurd (cc h), wf)
  send_loop-IsWellFormed (SendEvent.closed ∷ es) w wf = (λ h. absurd (cc h), wf)
  send_loop-IsWellFormed (front none ∷ es) w wf = (λ h. absurd (cc h), wf)
  send_loop-IsWellFormed (front (some m) ∷ es) w wf =
      front-IsFine (λ x. send_loop rt es x) (handle_frontend_messages rt m w)
        (λ x f. send_loop-IsWellFormed es x f)
        (handle_frontend_messages-ne-panics rt m w, handle_frontend_messages-IsSafe rt m w wf)
  send_loop-IsWellFormed (ping true ∷ es) w wf = send_loop-IsWellFormed es w wf
  send_loop-IsWellFormed (ping false ∷ es) w wf = (λ h. absurd (cc h), wf)
