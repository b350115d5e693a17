-- ===== src/Types/Tests.antt =====
-- Small inputs for the objects of JSON-RPC.
use jsonrpseex.Prelude.{ℕ, ◌≡◌, refl, none, some, List, [], ◌∷◌, String}
use jsonrpseex.Types.Result.{ok}
use jsonrpseex.Types.Ids.{RequestId}
use jsonrpseex.Types.Error.{ErrorCode, ErrorObject, Json}
use jsonrpseex.Types.Response.{Extended, TwoPointZero, two_point_zero, success}
use jsonrpseex.Types.Response.Visitor.{Values, visit_map, serialize}
use jsonrpseex.Types.Response.RoundTrip.{ReadsBack, visit_map-serialize}

abbrev no_error : ErrorObject
no_error = record { code = ErrorCode.internal_error; message = ""; data_ = none }

-- Results are read and written as they are; the other values are constant.
abbrev values0 : Values Json
values0 = record {
  read_version = λ j. some (some two_point_zero);
  read_result = λ j. some j;
  read_error = λ j. none;
  read_id = λ j. some (RequestId.number 3);
  write_version = λ v. [];
  write_result = λ j. j;
  write_error = λ e. [];
  write_id = λ i. [];
}

abbrev response0 : Extended ℕ Json
response0 = record {
  jsonrpc = some two_point_zero;
  payload = success (b'1' ∷ []);
  id = RequestId.number 3;
  extensions = 5;
}

two_point_zero_only : (w : TwoPointZero) → w ≡ two_point_zero
two_point_zero_only two_point_zero = refl

reads_back : ReadsBack values0 response0
reads_back = record {
  version = λ w e. cc (two_point_zero_only w);
  result = λ r e. refl;
  error_ = λ e p. absurd (cc p);
  id = refl;
}

abbrev object0 : List (String × Json)
object0 = ("id", []) ∷ ("other", []) ∷ ("result", b'1' ∷ []) ∷ []

visit_map-serialize_example :
    visit_map 0 values0 (serialize values0 response0) ≡ ok (record response0 { extensions = 0 })
visit_map-serialize_example = visit_map-serialize 0 values0 response0 reads_back
