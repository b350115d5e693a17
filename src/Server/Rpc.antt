-- ===== src/Server/Rpc.antt =====
-- server/src/server.rs: `handle_rpc_call`, over any service, and prepare_error of
-- core/src/server/helpers.rs.
pub mod Limits
use jsonrpseex.Prelude.{
  ℕ, ◌^◌, ◌-◌, String, Option, none, some, List, [], ◌∷◌, Bool, ltb, length, if◌then◌else◌,
}
use jsonrpseex.Types.Result.{Result, ok, err}
use jsonrpseex.Types.Ids.{RequestId}
use jsonrpseex.Types.Error
use jsonrpseex.Types.Error.{ErrorObject, ErrorCode, Json}
use jsonrpseex.Server.Runtime.{Runtime}
use jsonrpseex.Server.Response.{MethodResponse, error, reject_too_big_batch_request}

pub record Request (rt : Runtime) : Type 0 where
  pub id : RequestId
  pub method : String
  pub params : Option Json
  pub extensions : rt.Ext

pub record Notification (rt : Runtime) : Type 0 where
  pub method : String
  pub params : Option Json
  pub extensions : rt.Ext

pub data BatchEntry (rt : Runtime) : Type 0 where
  call : Request rt → BatchEntry rt
  notification : Notification rt → BatchEntry rt

-- core/src/middleware/mod.rs: made from an error and an id, and taken apart into them.
pub record BatchEntryErr : Type 0 where
  pub err : ErrorObject
  pub id : RequestId

pub data BatchRequestConfig : Type 0 where
  disabled unlimited : BatchRequestConfig
  limit : ℕ → BatchRequestConfig

-- What serde_json reads; the extensions are put into what is read.
pub record Reader (rt : Runtime) : Type 0 where
  pub read_call : Json → rt.Ext → Option (Request rt)
  pub read_notification : Json → rt.Ext → Option (Notification rt)
  pub read_invalid : Json → Option RequestId
  pub read_array : Json → Option (List Json)

-- `RpcServiceT`, with the state that the service acts on. A call runs to its end before the next.
pub record RpcServiceT (rt : Runtime) (St : Type 0) : Type 0 where
  pub call : Request rt → St → MethodResponse rt × St
  pub batch : List (Result BatchEntryErr (BatchEntry rt)) → St → MethodResponse rt × St
  pub notification : Notification rt → St → MethodResponse rt × St

-- `usize::MAX` on a machine of 64 bits.
abbrev pub usize_max : ℕ
usize_max = 2 ^ 64 - 1

module _ (rt : Runtime) (rd : Reader rt) where
  error_of : Option RequestId → RequestId × ErrorCode
  error_of (some id) = (id, ErrorCode.invalid_request)
  error_of none = (RequestId.null, ErrorCode.parse_error)

  unfoldable pub prepare_error : Json → RequestId × ErrorCode
  unfolding error_of
  prepare_error body = error_of (rd.read_invalid body)

  id_or_null : Option RequestId → RequestId
  id_or_null (some id) = id
  id_or_null none = RequestId.null

  entry_of :
      Json → Option (Request rt) → Option (Notification rt) → Result BatchEntryErr (BatchEntry rt)
  unfolding id_or_null Error.from_error_code
  entry_of j (some req) _ = ok (call req)
  entry_of j none (some n) = ok (BatchEntry.notification n)
  entry_of j none none = err (record {
    err = Error.from_error_code ErrorCode.invalid_request;
    id = id_or_null (rd.read_invalid j);
  })

  -- One round of the loop that fills the batch.
  unfoldable pub read_entry : rt.Ext → Json → Result BatchEntryErr (BatchEntry rt)
  unfolding entry_of
  read_entry ext j = entry_of j (rd.read_call j ext) (rd.read_notification j ext)

  unfoldable pub read_entries : rt.Ext → List Json → List (Result BatchEntryErr (BatchEntry rt))
  unfolding read_entry
  read_entries ext [] = []
  read_entries ext (j ∷ js) = read_entry ext j ∷ read_entries ext js

  -- The limit on the length of a batch, unless batches are disabled.
  unfoldable pub max_len : BatchRequestConfig → Option ℕ
  max_len disabled = none
  max_len (limit n) = some n
  max_len unlimited = some usize_max

  module _ {St : Type 0} (service : RpcServiceT rt St) where
    single : Json → Option (Request rt) → Option (Notification rt) → St → MethodResponse rt × St
    unfolding prepare_error Error.from_error_code
    single body (some req) _ st = service.call req st
    single body none (some n) st = service.notification n st
    single body none none st =
        let (id, code) = prepare_error body in (error rt id (Error.from_error_code code), st)

    batch_of : rt.Ext → ℕ → Option (List Json) → St → MethodResponse rt × St
    unfolding read_entries Error.from_error_code
    batch_of ext max none st =
        (error rt RequestId.null (Error.from_error_code ErrorCode.parse_error), st)
    batch_of ext max (some js) st =
        if ltb max (length js)
        then (error rt RequestId.null (reject_too_big_batch_request rt max), st)
        else service.batch (read_entries ext js) st

    batch_within : Json → rt.Ext → Option ℕ → St → MethodResponse rt × St
    unfolding batch_of Error.new
    batch_within body ext none st = (
      error rt RequestId.null (
          Error.new Error.batches_not_supported_code
            "Batched requests are not supported by this server" none),
      st,
    )
    batch_within body ext (some max) st = batch_of ext max (rd.read_array body) st

    unfoldable pub handle_rpc_call :
        Json → Bool → BatchRequestConfig → rt.Ext → St → MethodResponse rt × St
    unfolding single batch_within max_len
    handle_rpc_call body is_single config ext st =
        if is_single
        then single body (rd.read_call body ext) (rd.read_notification body ext) st
        else batch_within body ext (max_len config) st
