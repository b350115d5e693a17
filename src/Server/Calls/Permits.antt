-- ===== src/Server/Calls/Permits.antt =====
-- The permits of subscriptions.
use jsonrpseex.Prelude.{◌+◌, ◌≡◌, ◌⊎◌, arith}
use jsonrpseex.Server.Runtime.{Runtime}
use jsonrpseex.Server.Rpc.{Request}
use jsonrpseex.Server.Calls.{RpcService, Connection, service_call}

module _ (rt : Runtime) {St : Type 0} (s : RpcService rt St) where
  -- A call takes no permit, or one that was free.
  pub service_call_free :
      (req : Request rt) (c : Connection St)
      → let c' = (service_call rt s req c).1 in (c'.free ≡ c.free) ⊎ (c'.free + 1 ≡ c.free)
  unfolding service_call
  service_call_free req c = ground arith
