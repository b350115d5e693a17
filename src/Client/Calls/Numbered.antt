-- ===== src/Client/Calls/Numbered.antt =====
-- The requests of a batch and their ids.
use jsonrpseex.Prelude.{
  ℕ, zero, suc, ◌+◌, ◌<◌, ◌≡◌, inl, inr, refl, arith, ap, some, List, [], ◌∷◌, length, get_elem?,
}
use jsonrpseex.Prelude.Decimal.{u64_mod}
use jsonrpseex.Types.Result.{ok}
use jsonrpseex.Types.Ids.{try_parse_inner_as_number}
use jsonrpseex.Client.Ids.{
  IdKind, into_id, RequestIdManager, next_request_id, generate_batch_id_range,
}
use jsonrpseex.Client.Ids.Distinct.{try_parse_inner_as_number-into_id, generate_batch_id_range_lem}
use jsonrpseex.Client.Calls.{BatchEntry, Request, numbered, build, prepare_batch}

length-numbered :
    (kind : IdKind) (start : ℕ) (es : List BatchEntry) → length (numbered kind start es) ≡ length es
unfolding numbered
length-numbered kind start [] = refl
length-numbered kind start (e ∷ es) = ap suc (length-numbered kind (suc start) es)

numbered_lem :
    (kind : IdKind) (start i : ℕ) (es : List BatchEntry) (e : BatchEntry)
    → start + length es < u64_mod
    → get_elem? es i ≡ some e
    → (r : Request) × (get_elem? (numbered kind start es) i ≡ some r)
      × (try_parse_inner_as_number r.id ≡ ok (start + i))
      × (r.method ≡ e.method)
      × (r.params ≡ e.params)
unfolding numbered
numbered_lem kind start i [] e small g = absurd (ground (arith, g))
numbered_lem kind start zero (d ∷ es) e small g = (
  record { id = into_id kind start; method = d.method; params = d.params },
  refl,
  ground (arith, small, try_parse_inner_as_number-into_id kind start (omega (arith, small))),
  ground (arith, g),
  ground (arith, g),
)
numbered_lem kind start (suc i) (d ∷ es) e small g =
    let (r, a, b, c, f) = numbered_lem kind (suc start) i es e (omega (arith, small)) g in
    (r, a, ground (arith, b), c, f)

in_range :
    (kind : IdKind) (n len : ℕ)
    → n + len < u64_mod
    → generate_batch_id_range (into_id kind n) len ≡ ok (record { start = n; end_ = n + len })
in_range kind n len small = elim (generate_batch_id_range_lem kind n len (omega (arith, small))) [
  | inl (_, q) ↦ q
  | inr (q, _) ↦ absurd (omega (arith, q, small))
]

-- A batch with entries, whose ids do not wrap, is handed to the service as one request for each
-- entry, in order: the `i`-th has the method and the parameters of the `i`-th entry, and an id of
-- the client's kind that is read back as the start of the range and `i`, so that a response to it
-- belongs to the `i`-th place of the batch response. The range is as long as the batch.
pub prepare_batch_lem :
    (m : RequestIdManager) (d : BatchEntry) (es : List BatchEntry) (i : ℕ) (e : BatchEntry)
    → m.current_id + length (d ∷ es) < u64_mod
    → get_elem? (d ∷ es) i ≡ some e
    → (reqs : List Request) × (r : Request) × ((prepare_batch m (d ∷ es)).0
        ≡ ok (record { start = m.current_id; end_ = m.current_id + length (d ∷ es) }, reqs))
      × (length reqs ≡ length (d ∷ es))
      × (get_elem? reqs i ≡ some r)
      × (try_parse_inner_as_number r.id ≡ ok (m.current_id + i))
      × (r.method ≡ e.method)
      × (r.params ≡ e.params)
unfolding prepare_batch build next_request_id
prepare_batch_lem m d es i e small g =
    let (r, a, b, c, f) = numbered_lem m.id_kind m.current_id i (d ∷ es) e small g in
    let range = in_range m.id_kind m.current_id (length (d ∷ es)) small in
    (
      numbered m.id_kind m.current_id (d ∷ es),
      r,
      ground (arith, range),
      length-numbered m.id_kind m.current_id (d ∷ es),
      a,
      b,
      c,
      f,
    )
