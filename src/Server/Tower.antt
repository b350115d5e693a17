-- ===== src/Server/Tower.antt =====
-- server/src/server.rs: `TowerServiceNoHttp::call`, which starts to handle an HTTP request or starts a
-- websocket session, with the guard on the number of connections of server/src/future.rs; and how
-- such a session is registered and ends.
pub mod Guard
use jsonrpseex.Prelude.{
  ℕ, zero, suc, ◌+◌, ◌-◌, ◌≡◌, Option, none, some, List, [], ◌∷◌, ◌++◌, Bool, true, false, not,
  ◌&&◌, ◌==◌, if◌then◌else◌, codes,
}
use jsonrpseex.Prelude.Map.{Map, empty}
use jsonrpseex.Types.Result.{Result, ok, err}
use jsonrpseex.Types.Error.{Json}
use jsonrpseex.Server.Runtime.{Runtime}
use jsonrpseex.Server.Rpc.{Reader, RpcServiceT, BatchRequestConfig}
use jsonrpseex.Server.Body.{Frame}
use jsonrpseex.Server.Connections.{register_connection, unregister_connection}
use jsonrpseex.Server.Http.{HttpRequest, HttpResponse, call_with_service, too_many_requests, denied}

-- The parts of `ServerConfig` that the service looks at; `with_manager` tells whether there is a
-- connection manager.
pub record ServerConfig : Type 0 where
  pub enable_ws : Bool
  pub enable_http : Bool
  pub with_manager : Bool
  pub max_request_body_size : ℕ
  pub batch_requests_config : BatchRequestConfig

-- A websocket session's task has been started, has registered the connection and waits for the
-- upgrade, or runs.
pub data Phase : Type 0 where
  started upgrading running : Phase

pub record Session (Sink : Type 0) : Type 0 where
  pub conn_id : ℕ
  pub sink : Sink
  pub phase : Phase

-- `available` is the number of free permits of the `ConnectionGuard`, and `requests` are the HTTP
-- requests that the service was called with and that are not answered yet.
pub record Server (Sink St Request : Type 0) : Type 0 where
  pub available : ℕ
  pub registry : Map ℕ Sink
  pub sessions : List (Session Sink)
  pub requests : List Request
  pub app : St

-- `ConnectionGuard::try_acquire`: how many permits are left, if there was one.
unfoldable pub try_acquire : ℕ → Option ℕ
try_acquire zero = none
try_acquire (suc n) = some n

-- The future that the service returns: one that is done, or one that handles an HTTP request.
pub data Answer (R : Type 0) : Type 0 where
  ready : R → Answer R
  handling : Answer R

module _ (rt : Runtime) {E St : Type 0} (rd : Reader rt) (service : RpcServiceT rt St)
    (limited : ℕ → List (Result E Frame) → List (Result E Frame)) (cfg : ServerConfig) where
  abbrev pub State : Type 0
  State = Server rt.Sink St (HttpRequest rt E)

  -- soketto's answer to the request for an upgrade: the response, or the body that tells its error.
  upgrade :
      ℕ
      → rt.Sink
      → Result (HttpResponse rt) (HttpResponse rt)
      → ℕ
      → State
      → Answer (HttpResponse rt) × State
  upgrade conn_id sink (err rp) left s = (ready rp, s)
  upgrade conn_id sink (ok rp) left s = (
    ready rp,
    record s {
      available = left;
      sessions = record { conn_id = conn_id; sink = sink; phase = started } ∷ s.sessions;
    },
  )

  -- The permit is moved into the future, which holds it until the response is made.
  answer : HttpRequest rt E → ℕ → State → Answer (HttpResponse rt) × State
  answer req left s = (handling, record s { available = left; requests = req ∷ s.requests })

  -- What that future does: `call_with_service`, and then the permit is dropped.
  unfoldable pub respond :
      HttpRequest rt E → List (HttpRequest rt E) → State → HttpResponse rt × State
  unfolding call_with_service
  respond req others s =
      let (rp, app) =
        call_with_service rt rd service cfg.batch_requests_config limited cfg.max_request_body_size
          req s.app in
      (rp, record s { app = app; available = s.available + 1; requests = others })

  permitted :
      ℕ
      → rt.Sink
      → Bool
      → Result (HttpResponse rt) (HttpResponse rt)
      → HttpRequest rt E
      → ℕ
      → State
      → Answer (HttpResponse rt) × State
  unfolding upgrade answer denied
  permitted conn_id sink is_upgrade handshake req left s =
      if cfg.enable_ws && is_upgrade
      then upgrade conn_id sink handshake left s
      else if cfg.enable_http && not is_upgrade
      then answer req left s
      else (ready (denied rt), s)

  guarded :
      ℕ
      → rt.Sink
      → Bool
      → Result (HttpResponse rt) (HttpResponse rt)
      → HttpRequest rt E
      → Option ℕ
      → State
      → Answer (HttpResponse rt) × State
  unfolding permitted too_many_requests
  guarded conn_id sink is_upgrade handshake req none s = (ready (too_many_requests rt), s)
  guarded conn_id sink is_upgrade handshake req (some left) s =
      permitted conn_id sink is_upgrade handshake req left s

  -- `TowerServiceNoHttp::call`
  unfoldable pub tower_call :
      ℕ
      → rt.Sink
      → Bool
      → Result (HttpResponse rt) (HttpResponse rt)
      → HttpRequest rt E
      → State
      → Answer (HttpResponse rt) × State
  unfolding guarded try_acquire
  tower_call conn_id sink is_upgrade handshake req s =
      guarded conn_id sink is_upgrade handshake req (try_acquire s.available) s

  unfoldable pub registered : Session rt.Sink → Map ℕ rt.Sink → Map ℕ rt.Sink
  unfolding register_connection
  registered se m = if cfg.with_manager then register_connection m se.conn_id se.sink else m

  unfoldable pub unregistered : Session rt.Sink → Map ℕ rt.Sink → Map ℕ rt.Sink
  unfolding unregister_connection
  unregistered se m = if cfg.with_manager then unregister_connection m se.conn_id else m

  -- What happens in a server: calls of the service, in any order with the ends of the requests that
  -- it handles and the steps of the tasks of its sessions.
  pub data Step : State → State → Type 0 where
    call :
        (conn_id : ℕ) (sink : rt.Sink) (is_upgrade : Bool)
        (handshake : Result (HttpResponse rt) (HttpResponse rt)) (req : HttpRequest rt E)
        (s : State)
        → Step s (tower_call conn_id sink is_upgrade handshake req s).1
    responded :
        (s : State) (before after : List (HttpRequest rt E)) (req : HttpRequest rt E)
        → s.requests ≡ before ++ req ∷ after
        → Step s (respond req (before ++ after) s).1
    -- The connection is gone and the future is dropped, wherever its handling is.
    dropped :
        (s : State) (before after : List (HttpRequest rt E)) (req : HttpRequest rt E) (app : St)
        → s.requests ≡ before ++ req ∷ after
        → Step s (record s { available = s.available + 1; requests = before ++ after; app = app })
    register :
        (s : State) (before after : List (Session rt.Sink)) (se : Session rt.Sink)
        → s.sessions ≡ before ++ se ∷ after
        → se.phase ≡ started
        → Step s (record s {
          registry = registered se s.registry;
          sessions = before ++ record se { phase = upgrading } ∷ after;
        })
    -- The upgrade fails: the task returns, and the permit is dropped with it.
    upgrade_failed :
        (s : State) (before after : List (Session rt.Sink)) (se : Session rt.Sink)
        → s.sessions ≡ before ++ se ∷ after
        → se.phase ≡ upgrading
        → Step s (record s { available = s.available + 1; sessions = before ++ after })
    upgraded :
        (s : State) (before after : List (Session rt.Sink)) (se : Session rt.Sink)
        → s.sessions ≡ before ++ se ∷ after
        → se.phase ≡ upgrading
        → Step s (record s { sessions = before ++ record se { phase = running } ∷ after })
    -- `background_task` drops the connection's state with its permit, and returns.
    session_ended :
        (s : State) (before after : List (Session rt.Sink)) (se : Session rt.Sink)
        → s.sessions ≡ before ++ se ∷ after
        → se.phase ≡ running
        → Step s (record s {
          available = s.available + 1;
          registry = unregistered se s.registry;
          sessions = before ++ after;
        })

  pub data Reach (max : ℕ) : State → Type 0 where
    start :
        (app : St)
        → Reach max
            (record { available = max; registry = empty; sessions = []; requests = []; app = app })
    later : {s t : State} → Reach max s → Step s t → Reach max t
