-- ===== src/Server/Response/Batch.antt =====
-- core/src/server/method_response.rs: the builder of batch responses.
pub mod Text
use jsonrpseex.Prelude.{
  ℕ, ◌+◌, Option, none, List, [], ◌∷◌, ◌++◌, Bool, leb, ltb, ◌==◌, length, pop, if◌then◌else◌,
}
use jsonrpseex.Types.Result.{Result, ok, err}
use jsonrpseex.Types.Ids.{RequestId}
use jsonrpseex.Types.Error
use jsonrpseex.Types.Error.{ErrorCode, Json}
use jsonrpseex.Server.Runtime.{Runtime}
use jsonrpseex.Server.Response.{
  MethodResponse, MethodResponseResult, ResponseKind, error, error_json,
  reject_too_big_batch_response,
}

module _ (rt : Runtime) where
  pub record BatchResponseBuilder : Type 0 where
    pub result : Json
    pub max_response_size : ℕ
    pub extensions : rt.Ext

  pub record BatchResponse : Type 0 where
    pub json : Json
    pub extensions : rt.Ext

  unfoldable pub new_with_limit : ℕ → BatchResponseBuilder
  new_with_limit limit = record {
    result = b'[' ∷ [];
    max_response_size = limit;
    extensions = rt.no_ext;
  }

  -- The extensions are taken over before the size is tested.
  unfoldable pub append :
      BatchResponseBuilder
      → MethodResponse rt
      → Result (MethodResponse rt) (Unit {0}) × BatchResponseBuilder
  append b response =
      let len = length response.json + length b.result + 1 in
      let b' = record b { extensions = rt.extend b.extensions response.extensions } in
      if ltb b.max_response_size len
      then (
        err (error rt RequestId.null (reject_too_big_batch_response rt b.max_response_size)),
        b',
      )
      else (ok tt, record b' { result = (b'.result ++ response.json) ++ b',' ∷ [] })

  unfoldable pub is_empty : BatchResponseBuilder → Bool
  is_empty b = leb (length b.result) 1

  unfoldable pub finish : BatchResponseBuilder → BatchResponse
  unfolding error_json Error.from_error_code
  finish b =
      if length b.result == 1
      then record {
        json = error_json rt RequestId.null (Error.from_error_code ErrorCode.invalid_request);
        extensions = b.extensions;
      }
      else record { json = pop b.result ++ b']' ∷ []; extensions = b.extensions }

  -- `MethodResponse::from_batch`
  unfoldable pub from_batch : BatchResponse → MethodResponse rt
  from_batch batch = record {
    json = batch.json;
    success_or_error = MethodResponseResult.success;
    kind = ResponseKind.batch;
    on_close = none;
    extensions = batch.extensions;
  }
