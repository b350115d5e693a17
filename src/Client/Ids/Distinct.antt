-- ===== src/Client/Ids/Distinct.antt =====
-- The ids that a client makes are distinct, and a batch's range starts at its id.
use jsonrpseex.Prelude.{
  ℕ, zero, suc, ◌+◌, ◌<◌, ◌≤◌, ◌≡◌, ◌≢◌, ◌⊎◌, inl, inr, refl, arith, ap, ltb, Bool-cases,
}
use jsonrpseex.Prelude.Decimal.{u64_mod}
use jsonrpseex.Prelude.Decimal.RoundTrip.{parse-show}
use jsonrpseex.Types.Result.{ok, err}
use jsonrpseex.Types.Ids.{try_parse_inner_as_number}
use jsonrpseex.Client.World.{custom}
use jsonrpseex.Client.Ids.{
  IdKind, string, number, into_id, RequestIdManager, next_request_id, generate_batch_id_range,
}

-- An id of either kind is parsed back to its number.
pub try_parse_inner_as_number-into_id :
    (k : IdKind) (n : ℕ) → n < u64_mod → try_parse_inner_as_number (into_id k n) ≡ ok n
unfolding try_parse_inner_as_number into_id
try_parse_inner_as_number-into_id number n h = refl
try_parse_inner_as_number-into_id string n h = ground (arith, parse-show n h)

-- The manager after it has given out a number of ids.
unfoldable pub after_ids : ℕ → RequestIdManager → RequestIdManager
after_ids zero m = m
after_ids (suc n) m = after_ids n (next_request_id m).1

after_ids_lem :
    (n : ℕ) (m : RequestIdManager)
    → m.current_id + n < u64_mod
    → after_ids n m ≡ record m { current_id = m.current_id + n }
unfolding after_ids next_request_id
after_ids_lem zero m h = ground arith
after_ids_lem (suc n) m h = ground (arith, after_ids_lem n (next_request_id m).1)

-- Two ids that one client makes, fewer than 2^64 apart and before its counter wraps, are different.
pub next_request_id_distinct :
    (m : RequestIdManager) (i j : ℕ)
    → i < j
    → m.current_id + j < u64_mod
    → (next_request_id (after_ids i m)).0 ≢ (next_request_id (after_ids j m)).0
unfolding next_request_id
next_request_id_distinct m i j lt h e =
    let a = after_ids_lem i m (omega arith) in
    let b = after_ids_lem j m h in
    let p = try_parse_inner_as_number-into_id m.id_kind (m.current_id + i) (omega arith) in
    let q = try_parse_inner_as_number-into_id m.id_kind (m.current_id + j) h in
    ground (arith, ap try_parse_inner_as_number e, a, b, p, q)

-- The range of a batch of `len` requests starts at the number of the id, of either kind, and is as
-- long as the batch; there is an error exactly if its end is not a `u64`.
pub generate_batch_id_range_lem :
    (k : IdKind) (n len : ℕ)
    → n < u64_mod
    → ((n + len < u64_mod)
        × (generate_batch_id_range (into_id k n) len ≡ ok (record { start = n; end_ = n + len })))
      ⊎ ((u64_mod ≤ n + len)
          × (generate_batch_id_range (into_id k n) len
              ≡ err (custom "BatchID range wrapped; restart the client or try again later")))
unfolding generate_batch_id_range
generate_batch_id_range_lem k n len h =
    let p = try_parse_inner_as_number-into_id k n h in
    elim (Bool-cases (ltb (n + len) u64_mod)) [
      | inl t ↦ inl (ground (arith, t), ground (arith, p, t))
      | inr t ↦ inr (ground (arith, t), ground (arith, p, t))
    ]
