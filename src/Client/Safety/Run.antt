-- ===== src/Client/Safety/Run.antt =====
-- The invariant of the manager over all runs of the background task.
use jsonrpseex.Prelude.{ℕ, ◌≢◌, refl, arith}
use jsonrpseex.Client.Manager.WellFormed.{IsWellFormed, init-IsWellFormed, keep}
use jsonrpseex.Client.World.{Runtime, World, panics, start}
use jsonrpseex.Client.Frontend.{FrontToBack, handle_frontend_messages}
use jsonrpseex.Client.Frontend.Safety.{
  handle_frontend_messages-IsSafe, handle_frontend_messages-ne-panics,
}
use jsonrpseex.Client.Backend.{Incoming, handle_backend_messages}
use jsonrpseex.Client.Backend.Safety.{handle_backend_messages-Fine}
use jsonrpseex.Client.Safety.{
  Step, from_server, from_front, subscriber_acts, listener_acts, Reach, here, next,
}
use jsonrpseex.Client.Safety.Handlers.{IsSafe, put_active-IsWellFormed}

module _ (rt : Runtime) where
  Step-IsSafe : {v w : World rt} → Step rt v w → IsSafe rt v → IsSafe rt w
  Step-IsSafe (from_server w i) wf = (handle_backend_messages-Fine rt i w wf).1
  Step-IsSafe (from_front w f) wf = handle_frontend_messages-IsSafe rt f w wf
  Step-IsSafe (subscriber_acts w id u s unsub c e) wf =
      put_active-IsWellFormed w.manager id u _ unsub wf (ground (arith, e))
  Step-IsSafe (listener_acts w method s c e) wf = keep w.manager _ wf refl λ r. refl

  -- In every state that the background task reaches from its start, whatever the server sends, the
  -- front end asks and the receivers of the channels do: each subscription id in the reverse map
  -- stands for an active subscription, no two ids for the same one, and each active subscription
  -- has an id.
  pub Reach-IsWellFormed :
      (cap : ℕ) {w : World rt} → Reach rt (start rt cap) w → IsWellFormed w.manager
  Reach-IsWellFormed cap here = init-IsWellFormed
  Reach-IsWellFormed cap (next r s) = Step-IsSafe s (Reach-IsWellFormed cap r)

  -- In every such state, neither a message of the server nor one of the front end makes its handler
  -- panic.
  pub Reach-ne-panics :
      (cap : ℕ) {w : World rt} (i : Incoming) (f : FrontToBack rt)
      → Reach rt (start rt cap) w
      → ((handle_backend_messages rt i w).0 ≢ panics)
        × ((handle_frontend_messages rt f w).0 ≢ panics)
  Reach-ne-panics cap {w} i f r = (
    (handle_backend_messages-Fine rt i w (Reach-IsWellFormed cap r)).0,
    handle_frontend_messages-ne-panics rt f w,
  )
