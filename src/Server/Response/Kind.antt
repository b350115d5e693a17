-- ===== src/Server/Response/Kind.antt =====
-- core/src/server/method_response.rs: what kind of response a response is, and whether it is an error.
use jsonrpseex.Prelude.Int.{ℤ}

pub data ResponseKind : Type 0 where
  method_call subscription batch notification : ResponseKind

pub data MethodResponseResult : Type 0 where
  success : MethodResponseResult
  failed : ℤ → MethodResponseResult
