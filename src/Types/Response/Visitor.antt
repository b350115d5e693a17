-- ===== src/Types/Response/Visitor.antt =====
-- types/src/response.rs: `visit_map` of the response visitor, and `Serialize for Response`.
use jsonrpseex.Prelude.{String, List, [], ◌∷◌, ◌++◌, Option, none, some, ite, String-discrete}
use jsonrpseex.Types.Result.{Result, ok, err, ◌>>=◌}
use jsonrpseex.Types.Ids.{RequestId}
use jsonrpseex.Types.Error.{ErrorObject, Json}
use jsonrpseex.Types.Response.{TwoPointZero, Extended, ResponsePayload, success}

pub data Field : Type 0 where
  jsonrpc result error id ignore : Field

-- `visit_str` of the field visitor.
unfoldable pub field_of : String → Field
unfolding String-discrete
field_of s = ite (String-discrete s "jsonrpc") Field.jsonrpc (
    ite (String-discrete s "result") Field.result (
      ite (String-discrete s "error") Field.error
        (ite (String-discrete s "id") Field.id Field.ignore)))

pub data VisitError : Type 0 where
  duplicate_field : String → VisitError
  missing_field : String → VisitError
  invalid_value : VisitError

-- What serde reads and writes for the four values.
pub record Values (T : Type 0) : Type 0 where
  pub read_version : Json → Option (Option TwoPointZero)
  pub read_result : Json → Option T
  pub read_error : Json → Option ErrorObject
  pub read_id : Json → Option RequestId
  pub write_version : TwoPointZero → Json
  pub write_result : T → Json
  pub write_error : ErrorObject → Json
  pub write_id : RequestId → Json

-- The four local variables of `visit_map`.
pub record Seen (T : Type 0) : Type 0 where
  pub jsonrpc : Option (Option TwoPointZero)
  pub result : Option T
  pub error : Option ErrorObject
  pub id : Option RequestId

abbrev pub nothing_seen : {T : Type 0} → Seen T
nothing_seen = record { jsonrpc = none; result = none; error = none; id = none }

-- A key that was seen already is an error before its value is read.
unfoldable pub once : {A : Type 0} → Option A → String → Option A → Result VisitError A
once (some _) name v = err (duplicate_field name)
once none name none = err invalid_value
once none name (some v) = ok v

-- `new_extensions` is `Extensions::new()`.
module _ {X T : Type 0} (new_extensions : X) (v : Values T) where
  unfoldable pub visit_field : Field → Json → Seen T → Result VisitError (Seen T)
  unfolding once
  visit_field Field.result j s = do
    r ← once s.result "result" (v.read_result j)
    ok (record s { result = some r })
  visit_field Field.error j s = do
    e ← once s.error "error" (v.read_error j)
    ok (record s { error = some e })
  visit_field Field.id j s = do i ← once s.id "id" (v.read_id j); ok (record s { id = some i })
  visit_field Field.jsonrpc j s = do
    w ← once s.jsonrpc "jsonrpc" (v.read_version j)
    ok (record s { jsonrpc = some w })
  visit_field Field.ignore j s = ok s

  unfoldable pub visit_fields : List (String × Json) → Seen T → Result VisitError (Seen T)
  unfolding visit_field field_of
  visit_fields [] s = ok s
  visit_fields ((k, j) ∷ rest) s = do s' ← visit_field (field_of k) j s; visit_fields rest s'

  -- The `match` on what was seen, for a known id.
  unfoldable pub assemble :
      RequestId
      → Option (Option TwoPointZero)
      → Option T
      → Option ErrorObject
      → Result VisitError (Extended X T)
  assemble i _ (some _) (some _) = err (duplicate_field "result and error are mutually exclusive")
  assemble i (some w) (some r) none =
      ok (record { jsonrpc = w; payload = success r; id = i; extensions = new_extensions })
  assemble i (some w) none (some e) = ok (record {
    jsonrpc = w;
    payload = ResponsePayload.error e;
    id = i;
    extensions = new_extensions;
  })
  assemble i none (some r) none =
      ok (record { jsonrpc = none; payload = success r; id = i; extensions = new_extensions })
  assemble i none none (some e) = ok (record {
    jsonrpc = none;
    payload = ResponsePayload.error e;
    id = i;
    extensions = new_extensions;
  })
  assemble i _ none none = err (missing_field "result/error")

  unfoldable pub finish : Option RequestId → Seen T → Result VisitError (Extended X T)
  unfolding assemble
  finish none s = err (missing_field "id")
  finish (some i) s = assemble i s.jsonrpc s.result s.error

  unfoldable pub visit_map : List (String × Json) → Result VisitError (Extended X T)
  unfolding visit_fields finish
  visit_map fields = do s ← visit_fields fields nothing_seen; finish s.id s

module _ {T : Type 0} (v : Values T) where
  version_fields : Option TwoPointZero → List (String × Json)
  version_fields none = []
  version_fields (some w) = ("jsonrpc", v.write_version w) ∷ []

  payload_field : ResponsePayload T → String × Json
  payload_field (ResponsePayload.error e) = ("error", v.write_error e)
  payload_field (success r) = ("result", v.write_result r)

  -- The fields that `Serialize for Response` writes, in order; the extensions are skipped.
  unfoldable pub serialize : {X : Type 0} → Extended X T → List (String × Json)
  unfolding version_fields payload_field
  serialize rp =
      version_fields rp.jsonrpc ++ ("id", v.write_id rp.id) ∷ payload_field rp.payload ∷ []
