-- ===== src/Server/Runtime.antt =====
-- The code that the server calls and that is not part of the repository: serde_json's writers and
-- readers, the extensions of a request (`http::Extensions`), and the channels of tokio.
use jsonrpseex.Prelude.{String, Option, List, Bool}
use jsonrpseex.Types.Error.{Json}
use jsonrpseex.Types.Response.{Response}

-- What serde_json gives to a writer for a value: the pieces in order, and whether the value was
-- serialized to its end.
pub record Written : Type 0 where
  pub pieces : List Json
  pub complete : Bool

pub record Runtime : Type 1 where
  pub Ext : Type 0
  pub no_ext : Ext
  pub extend : Ext → Ext → Ext
  pub NotifyTx : Type 0
  pub Sink : Type 0
  pub IdProvider : Type 0
  pub write_error : Response (Unit {0}) → Json
  pub write_text : String → Option Json
  pub null_json : Json
