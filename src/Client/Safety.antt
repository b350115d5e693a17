-- ===== src/Client/Safety.antt =====
-- The background task of the client over any sequence of messages. The task alternates between the
-- messages of the server, those of its front end, and what the front end does with its channels.
pub mod Handlers
pub mod Run
use jsonrpseex.Prelude.{ℕ, String, ◌≡◌, ◌≢◌, refl, Option, some}
use jsonrpseex.Types.Ids.{RequestId}
use jsonrpseex.Client.Manager.{Kind, find_request, find_handler, put_request, put_handler}
use jsonrpseex.Client.World.{Runtime, World, Sender, panics, start}
use jsonrpseex.Client.Frontend.{FrontToBack, handle_frontend_messages}
use jsonrpseex.Client.Backend.{Incoming, handle_backend_messages}

-- A step of the task, or of its environment: the state of a sink's channel changes when its
-- receiver takes a message or is dropped.
pub data Step (rt : Runtime) : World rt → World rt → Type 0 where
  from_server : (w : World rt) (i : Incoming) → Step rt w (handle_backend_messages rt i w).1
  from_front : (w : World rt) (f : FrontToBack rt) → Step rt w (handle_frontend_messages rt f w).1
  subscriber_acts :
      (w : World rt) (id u : RequestId) (s : Sender rt) (unsub : String) (c : rt.Chan)
      → find_request w.manager id ≡ some (Kind.subscription u s unsub)
      → Step rt w (record w {
        manager = put_request w.manager id (Kind.subscription u (record s { inner = c }) unsub);
      })
  listener_acts :
      (w : World rt) (method : String) (s : Sender rt) (c : rt.Chan)
      → find_handler w.manager method ≡ some s
      → Step rt w (record w { manager = put_handler w.manager method (record s { inner = c }) })

pub data Reach (rt : Runtime) (w : World rt) : World rt → Type 0 where
  here : Reach rt w w
  next : {v u : World rt} → Reach rt w v → Step rt v u → Reach rt w u
