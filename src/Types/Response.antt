-- ===== src/Types/Response.antt =====
-- types/src/response.rs: responses, and the visitor that reads one from a JSON object.
pub mod Visitor
pub mod RoundTrip
pub mod Sound
use jsonrpseex.Prelude.{Option, some}
use jsonrpseex.Types.Result.{Result, ok, err}
use jsonrpseex.Types.Ids.{RequestId}
use jsonrpseex.Types.Error.{ErrorObject}

-- The version marker `"2.0"`.
pub data TwoPointZero : Type 0 where
  two_point_zero : TwoPointZero

pub data ResponsePayload (T : Type 0) : Type 0 where
  success : T → ResponsePayload T
  error : ErrorObject → ResponsePayload T

-- `Response`, over the type of http's extensions.
pub record Extended (X T : Type 0) : Type 0 where
  pub jsonrpc : Option TwoPointZero
  pub payload : ResponsePayload T
  pub id : RequestId
  pub extensions : X

-- The response where nothing reads its extensions.
abbrev pub Response : Type 0 → Type 0
Response = Extended (Unit {0})

-- `Response::new`
unfoldable pub new : {T : Type 0} → ResponsePayload T → RequestId → Response T
new p i = record { jsonrpc = some two_point_zero; payload = p; id = i; extensions = tt }

pub record Success (T : Type 0) : Type 0 where
  pub jsonrpc : Option TwoPointZero
  pub result : T
  pub id : RequestId

success_of :
    {T : Type 0}
    → Option TwoPointZero
    → RequestId
    → ResponsePayload T
    → Result ErrorObject (Success T)
success_of v i (error e) = err e
success_of v i (success r) = ok (record { jsonrpc = v; result = r; id = i })

-- `TryFrom<Response>` for `Success`
unfoldable pub try_from : {X T : Type 0} → Extended X T → Result ErrorObject (Success T)
unfolding success_of
try_from rp = success_of rp.jsonrpc rp.id rp.payload
