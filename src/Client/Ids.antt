-- ===== src/Client/Ids.antt =====
-- core/src/client/mod.rs: the ids of requests, and the range of ids of a batch.
pub mod Distinct
use jsonrpseex.Prelude.{ℕ, ◌+◌, ◌%◌, suc, ltb, if◌then◌else◌}
use jsonrpseex.Prelude.Decimal
use jsonrpseex.Prelude.Decimal.{u64_mod}
use jsonrpseex.Types.Result.{Result, ok, err}
use jsonrpseex.Types.Ids.{RequestId, InvalidRequestId, try_parse_inner_as_number}
use jsonrpseex.Client.Manager.{Range}
use jsonrpseex.Client.World.{ClientError, invalid_request_id, custom}

pub data IdKind : Type 0 where
  string number : IdKind

-- `IdKind::into_id`
unfoldable pub into_id : IdKind → ℕ → RequestId
into_id IdKind.number id = RequestId.number id
into_id string id = RequestId.str (Decimal.show id)

-- `CurrentId` is the number of its counter, on a machine whose `usize` has 64 bits.
pub record RequestIdManager : Type 0 where
  pub current_id : ℕ
  pub id_kind : IdKind

unfoldable pub new : IdKind → RequestIdManager
new id_kind = record { current_id = 0; id_kind = id_kind }

-- `fetch_add` gives the old number, and wraps.
unfoldable pub next_request_id : RequestIdManager → RequestId × RequestIdManager
unfolding into_id
next_request_id m =
    (into_id m.id_kind m.current_id, record m { current_id = (m.current_id + 1) % u64_mod })

range_from : ℕ → Result InvalidRequestId ℕ → Result ClientError Range
range_from len (err e) = err (invalid_request_id e)
range_from len (ok id_start) =
    if ltb (id_start + len) u64_mod
    then ok (record { start = id_start; end_ = id_start + len })
    else err (custom "BatchID range wrapped; restart the client or try again later")

unfoldable pub generate_batch_id_range : RequestId → ℕ → Result ClientError Range
unfolding range_from
generate_batch_id_range id len = range_from len (try_parse_inner_as_number id)
