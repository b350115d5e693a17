-- ===== src/Types/Response/RoundTrip.antt =====
-- What is written of a response is read back.
use jsonrpseex.Prelude.{Option, none, some, ◌≡◌, refl, arith}
use jsonrpseex.Types.Result.{ok}
use jsonrpseex.Types.Ids.{RequestId}
use jsonrpseex.Types.Error.{ErrorObject}
use jsonrpseex.Types.Response.{TwoPointZero, Extended, ResponsePayload, success}
use jsonrpseex.Types.Response.Visitor.{Values, Field, field_of, visit_map, serialize}

-- serde reads back each value that it wrote of this response.
pub record ReadsBack {X T : Type 0} (v : Values T) (rp : Extended X T) : Type 0 where
  pub version :
      (w : TwoPointZero) → rp.jsonrpc ≡ some w → v.read_version (v.write_version w) ≡ some (some w)
  pub result : (r : T) → rp.payload ≡ success r → v.read_result (v.write_result r) ≡ some r
  pub error_ :
      (e : ErrorObject)
      → rp.payload ≡ ResponsePayload.error e
      → v.read_error (v.write_error e) ≡ some e
  pub id : v.read_id (v.write_id rp.id) ≡ some rp.id

field_names :
    (field_of "jsonrpc" ≡ Field.jsonrpc)
    × (field_of "id" ≡ Field.id)
    × (field_of "error" ≡ Field.error)
    × (field_of "result" ≡ Field.result)
unfolding field_of
field_names = (refl, refl, refl, refl)

module _ {X T : Type 0} (new_extensions : X) (v : Values T) where
  parts :
      (w : Option TwoPointZero) (i : RequestId) (p : ResponsePayload T) (x : X)
      → ReadsBack v (record { jsonrpc = w; payload = p; id = i; extensions = x })
      → visit_map new_extensions v
          (serialize v (record { jsonrpc = w; payload = p; id = i; extensions = x }))
        ≡ ok (record { jsonrpc = w; payload = p; id = i; extensions = new_extensions })
  unfolding visit_map serialize
  parts none i (success r) x b = ground (arith, b.id, b.result r refl)
  parts none i (ResponsePayload.error e) x b = ground (arith, b.id, b.error_ e refl)
  parts (some w) i (success r) x b = ground (arith, b.id, b.result r refl, b.version w refl)
  parts (some w) i (ResponsePayload.error e) x b =
      ground (arith, b.id, b.error_ e refl, b.version w refl)

  -- A response that is serialized and then visited comes back with its version, its payload and its
  -- id, if serde reads back the values that it wrote; its extensions are not sent, and come back new.
  pub visit_map-serialize :
      (rp : Extended X T)
      → ReadsBack v rp
      → visit_map new_extensions v (serialize v rp) ≡ ok (record rp { extensions = new_extensions })
  visit_map-serialize rp b = parts rp.jsonrpc rp.id rp.payload rp.extensions b
