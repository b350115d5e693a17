-- ===== src/Server/Tower/Guard.antt =====
-- The guard on the number of connections.
use jsonrpseex.Prelude.{ℕ, ◌+◌, ◌≤◌, ◌≡◌, ap, arith, List, ◌∷◌, ◌++◌, Bool, length, length-middle}
use jsonrpseex.Types.Result.{Result}
use jsonrpseex.Server.Runtime.{Runtime}
use jsonrpseex.Server.Rpc.{Reader, RpcServiceT}
use jsonrpseex.Server.Body.{Frame}
use jsonrpseex.Server.Http.{HttpRequest, HttpResponse}
use jsonrpseex.Server.Tower.{
  ServerConfig, State, try_acquire, tower_call, respond, Step, call, responded, dropped, register,
  upgrade_failed, upgraded, session_ended, Reach, start, later, upgrading, running,
}

module _ (rt : Runtime) {E St : Type 0} (rd : Reader rt) (service : RpcServiceT rt St)
    (limited : ℕ → List (Result E Frame) → List (Result E Frame)) (cfg : ServerConfig) where
  tower_call_permits :
      (conn_id : ℕ) (sink : rt.Sink) (is_upgrade : Bool)
      (handshake : Result (HttpResponse rt) (HttpResponse rt)) (req : HttpRequest rt E)
      (s : State rt rd service limited cfg)
      → let t = (tower_call rt rd service limited cfg conn_id sink is_upgrade handshake req s).1 in
        t.available + (length t.sessions + length t.requests)
        ≡ s.available + (length s.sessions + length s.requests)
  unfolding tower_call try_acquire
  tower_call_permits conn_id sink is_upgrade handshake req s = ground arith

  respond-permits :
      (s : State rt rd service limited cfg) (before after : List (HttpRequest rt E))
      (req : HttpRequest rt E)
      → s.requests ≡ before ++ req ∷ after
      → let t = (respond rt rd service limited cfg req (before ++ after) s).1 in
        t.available + (length t.sessions + length t.requests)
        ≡ s.available + (length s.sessions + length s.requests)
  unfolding respond
  respond-permits s before after req e = omega (arith, ap length e, length-middle before req after)

  Step-permits :
      {s t : State rt rd service limited cfg}
      → Step rt rd service limited cfg s t
      → t.available + (length t.sessions + length t.requests)
        ≡ s.available + (length s.sessions + length s.requests)
  Step-permits (call conn_id sink is_upgrade handshake req s) =
      tower_call_permits conn_id sink is_upgrade handshake req s
  Step-permits (responded s before after req e) = respond-permits s before after req e
  Step-permits (dropped s before after req app e) =
      omega (arith, ap length e, length-middle before req after)
  Step-permits (register s before after se e p) = omega (
    arith,
    ap length e,
    length-middle before se after,
    length-middle before (record se { phase = upgrading }) after,
  )
  Step-permits (upgrade_failed s before after se e p) =
      omega (arith, ap length e, length-middle before se after)
  Step-permits (upgraded s before after se e p) = omega (
    arith,
    ap length e,
    length-middle before se after,
    length-middle before (record se { phase = running }) after,
  )
  Step-permits (session_ended s before after se e p) =
      omega (arith, ap length e, length-middle before se after)

  -- In every state that a server reaches, each permit of the connection guard is free or is held by
  -- exactly one websocket session or HTTP request that is not answered yet: no permit is lost when an
  -- upgrade fails, a session ends or a request is answered, and there are never more sessions and
  -- requests at a time than the maximum of connections.
  pub Reach-guard :
      {max : ℕ} {s : State rt rd service limited cfg}
      → Reach rt rd service limited cfg max s
      → (s.available + (length s.sessions + length s.requests) ≡ max)
        × (length s.sessions + length s.requests ≤ max)
  Reach-guard (start app) = (omega arith, omega arith)
  Reach-guard (later r st) =
      let (a, b) = Reach-guard r in
      (omega (arith, a, Step-permits st), omega (arith, a, Step-permits st))
