-- ===== src/Client/Helpers/Batch.antt =====
-- `process_batch_response` gives the responses back in the order of the requests.
use jsonrpseex.Prelude.{
  ℕ, ◌+◌, ◌-◌, ◌<◌, ◌≡◌, refl, ◌∙◌, some, List, [], ◌∷◌, length, set, replicate, get_elem?,
  length-set, length-replicate, get_elem?-set_self, get_elem?-replicate, get_elem?-set_ne, arith,
  ℕ_discrete, if◌then◌else◌, ◌==◌, false, leb, ltb, ◌&&◌, true, Bool, Bool-cases, Option-cases, inl,
  inr,
}
use jsonrpseex.Types.Result.{Result, ok, err, Result-cases}
use jsonrpseex.Types.Ids.{InvalidRequestId, not_pending_request, try_parse_inner_as_number}
use jsonrpseex.Client.Manager.{Range, find_batch, complete_pending_batch}
use jsonrpseex.Client.World.{Runtime, RawResponse, World, deliver, batch_reply}
use jsonrpseex.Client.Helpers.{fill, placeholder, process_batch_response}

-- The number that a response's id stands for lies `i` places after the start of a range of `n` ids.
abbrev pub IsAt : ℕ → ℕ → RawResponse → Type 0
IsAt start i rp = try_parse_inner_as_number rp.id ≡ ok (start + i)

abbrev pub InRange : ℕ → ℕ → List RawResponse → Type 0
InRange start n [] = Unit {0}
InRange start n (rp ∷ rps) = ((i : ℕ) × (i < n) × IsAt start i rp) × InRange start n rps

has_id : ℕ → Result InvalidRequestId ℕ → Bool
has_id n (ok m) = m == n
has_id n (err e) = false

-- The last response with the id `n`, if there is one.
unfoldable pub latest : ℕ → List RawResponse → RawResponse → RawResponse
unfolding has_id
latest n [] d = d
latest n (rp ∷ rps) d = latest n rps (if has_id n (try_parse_inner_as_number rp.id) then rp else d)

in_range : (start i n : ℕ) → i < n → (leb start (start + i) && ltb ((start + i) - start) n) ≡ true
in_range start i n lt = ground arith

pick :
    (start i j : ℕ) (rp d : RawResponse) (r : Result InvalidRequestId ℕ) (acc : List RawResponse)
    → r ≡ ok (start + i)
    → i < length acc
    → get_elem? acc j ≡ some d
    → get_elem? (set acc i rp) j ≡ some (if has_id (start + j) r then rp else d)
unfolding has_id
pick start i j rp d (ok m) acc e lt h = elim (ℕ_discrete i j) [
  | yes same ↦ ground (arith, get_elem?-set_self acc i rp lt)
  | no other ↦ ground (arith, get_elem?-set_ne acc i j rp other)
]
pick start i j rp d (err x) acc e lt h = cc

fill_lem :
    (start n : ℕ) (rps acc : List RawResponse)
    → length acc ≡ n
    → InRange start n rps
    → (out : List RawResponse) × (fill start rps acc ≡ ok out)
      × (length out ≡ n)
      × ((i : ℕ) (d : RawResponse)
          → get_elem? acc i ≡ some d
          → get_elem? out i ≡ some (latest (start + i) rps d))
unfolding fill latest has_id
fill_lem start n [] acc l tt = (acc, refl, l, λ i d h. h)
fill_lem start n (rp ∷ rps) acc l ((i, lt, e), rest) =
    let (out, f, m, g) = fill_lem start n rps (set acc i rp) (length-set acc i rp ∙ l) rest in
    let place : (start + i) - start ≡ i = omega arith in
    (
      out,
      ground (arith, e, place, in_range start i n lt, f),
      m,
      λ j d h. g j _ (pick start i j rp d _ acc e (ground arith) h),
    )

sound :
    (start n : ℕ) (rps acc out : List RawResponse)
    → length acc ≡ n
    → fill start rps acc ≡ ok out
    → InRange start n rps
unfolding fill
sound start n [] acc out l e = tt
sound start n (rp ∷ rps) acc out l e = elim (Result-cases (try_parse_inner_as_number rp.id)) [
  | inl (m, p) ↦ elim (Bool-cases (leb start m && ltb (m - start) (length acc))) [
    | inl t ↦ (
      (m - start, ground (arith, t, l), ground (arith, p, t)),
      sound start n rps (set acc (m - start) rp) out (length-set acc _ rp ∙ l)
          (ground (arith, e, p, t)),
    )
    | inr f ↦ absurd (ground (arith, e, p, f))
  ]
  | inr (x, p) ↦ absurd (ground (arith, e, p))
]

module _ (rt : Runtime) where
  -- The world after the entry of a batch was taken out of the manager.
  unfoldable pub taken : World rt → Range → World rt
  taken w range = record w { manager = (complete_pending_batch w.manager range).1 }

  -- If the batch is pending and every response's id lies in its range, the front end is given one
  -- vector of the size of the range: at the place of each id stands the last response with this id,
  -- or the placeholder if there is none. The batch is then no longer pending.
  pub process_batch_response_in_order :
      (w : World rt) (rps : List RawResponse) (range : Range) (o : rt.Oneshot)
      → find_batch w.manager range ≡ some o
      → InRange range.start (range.end_ - range.start) rps
      → (out : List RawResponse) × (process_batch_response rt w rps range
          ≡ (ok tt, deliver rt (taken w range) (batch_reply o (ok out))))
        × (length out ≡ range.end_ - range.start)
        × ((i : ℕ)
            → i < range.end_ - range.start
            → get_elem? out i ≡ some (latest (range.start + i) rps placeholder))
  unfolding process_batch_response taken complete_pending_batch
  process_batch_response_in_order w rps range o e r =
      let n = range.end_ - range.start in
      let (out, f, m, g) =
        fill_lem range.start n rps (replicate n placeholder) (length-replicate n placeholder) r in
      (
        out,
        ground (arith, e, f),
        m,
        λ i lt. g i placeholder (get_elem?-replicate n i placeholder lt),
      )

  -- If a response has an id that is no number or lies outside of the range, the batch is refused as
  -- a whole: nothing is given to the front end, and the batch is no longer pending.
  pub process_batch_response_rejects :
      (w : World rt) (rps : List RawResponse) (range : Range)
      → ¬ (InRange range.start (range.end_ - range.start) rps)
      → (e : InvalidRequestId) × (process_batch_response rt w rps range ≡ (err e, taken w range))
  unfolding process_batch_response taken complete_pending_batch
  process_batch_response_rejects w rps range h =
      let n = range.end_ - range.start in
      let acc = replicate n placeholder in
      elim (Result-cases (fill range.start rps acc)) [
        | inl (out, f) ↦
            absurd (h (sound range.start n rps acc out (length-replicate n placeholder) f))
        | inr (x, f) ↦ elim (Option-cases (find_batch w.manager range)) [
          | inl e ↦ (not_pending_request (rt.show_range range.start range.end_), ground (arith, e))
          | inr (o, e) ↦ (x, ground (arith, e, f))
        ]
      ]
