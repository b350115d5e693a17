-- ===== src/Client/Backend/Batches.antt =====
-- The server's answer to a batch, from the message to the front end.
use jsonrpseex.Prelude.{
  ℕ, suc, ◌+◌, ◌-◌, ◌%◌, ◌<◌, ◌≤◌, ◌≡◌, sym, ◌∙◌, subst, ◌⊎◌, inl, inr, Option, none, some, List,
  [], ◌∷◌, ◌++◌, length, get_elem?, append_assoc, append-nil, arith, false,
}
use jsonrpseex.Prelude.Decimal.{u64_mod}
use jsonrpseex.Types.Result.{ok}
use jsonrpseex.Types.Ids.{try_parse_inner_as_number}
use jsonrpseex.Types.Error.{Json}
use jsonrpseex.Client.Manager.{Range, find_batch}
use jsonrpseex.Client.World.{Runtime, RawResponse, World, done, batch_reply, deliver}
use jsonrpseex.Client.Helpers.{placeholder}
use jsonrpseex.Client.Helpers.Batch.{InRange, taken, latest, process_batch_response_in_order}
use jsonrpseex.Client.Backend.{
  widen, Loop, element, elements, first_non_whitespace, received, bytes, handle_backend_messages,
}

-- One of the responses has this number as its id.
abbrev pub Has : ℕ → List RawResponse → Type 0
Has n [] = ⊥
Has n (rp ∷ rps) = (try_parse_inner_as_number rp.id ≡ ok n) ⊎ Has n rps

-- The range that the loop has computed, all of whose ids lie between `start` and `start + n`.
abbrev Within : ℕ → ℕ → Option Range → Type 0
Within start n none = Unit {0}
Within start n (some r) = (start ≤ r.start) × (r.start ≤ r.end_) × (r.end_ < start + n)

abbrev Spans : ℕ → Option Range → Type 0
Spans k none = ⊥
Spans k (some r) = (r.start ≤ k) × (k ≤ r.end_)

widen-Within :
    (start n j : ℕ) (o : Option Range)
    → j < n
    → Within start n o
    → Within start n (some (widen o (start + j)))
unfolding widen
widen-Within start n j none lt i = (omega arith, omega arith, omega (arith, lt))
widen-Within start n j (some r) lt (a, b, c) =
    (ground (arith, a), ground (arith, b), ground (arith, c, lt))

widen-Spans : (k id : ℕ) (o : Option Range) → Spans k o → Spans k (some (widen o id))
unfolding widen
widen-Spans k id none s = absurd s
widen-Spans k id (some r) (a, b) = (ground (arith, a), ground (arith, b))

widen-Spans_self : (id : ℕ) (o : Option Range) → Spans id (some (widen o id))
unfolding widen
widen-Spans_self id none = (omega arith, omega arith)
widen-Spans_self id (some r) = (ground arith, ground arith)

-- The range of `n` ids.
abbrev pub ids_from : ℕ → ℕ → Range
ids_from start n = record { start = start; end_ = start + n }

module _ (rt : Runtime) where
  -- The elements of an array are read as these responses.
  abbrev pub ReadAs : List Json → List RawResponse → Type 0
  ReadAs [] [] = Unit {0}
  ReadAs (r ∷ rs) (rp ∷ rps) = (rt.read_response r ≡ some rp) × ReadAs rs rps
  ReadAs _ _ = ⊥

  -- What the loop leaves: the responses, in order, and a range that spans their ids.
  elements_lem :
      (raw : Json) (rs : List Json) (rps : List RawResponse) (l : Loop rt) (start n : ℕ)
      → ReadAs rs rps
      → InRange start n rps
      → Within start n l.range
      → (o : Option Range) × (elements rt raw rs l
          ≡ (done (record l { batch = l.batch ++ rps; range = o }), l.world))
        × Within start n o
        × ((k : ℕ) → Has k rps ⊎ Spans k l.range → Spans k o)
  unfolding elements element
  elements_lem raw [] [] l start n q h i = (
    l.range,
    ground (arith, append-nil l.batch),
    i,
    λ k s. elim s [ inl x ↦ absurd x | inr y ↦ y ],
  )
  elements_lem raw [] (rp ∷ rps) l start n q h i = absurd q
  elements_lem raw (r ∷ rs) [] l start n q h i = absurd q
  elements_lem raw (r ∷ rs) (rp ∷ rps) l start n (q, qs) ((j, lt, e), h) i =
      let id = start + j in
      let w = widen l.range id in
      let l' : Loop rt = record l { batch = l.batch ++ rp ∷ []; range = some w } in
      let at_id : (k : ℕ) → try_parse_inner_as_number rp.id ≡ ok k → Spans k (some w) =
        λ k x. subst (λ m. Spans m (some w)) (ground (arith, e, x)) (widen-Spans_self id l.range) in
      let (o, f, g, spans) =
        elements_lem raw rs rps l' start n qs h (widen-Within start n j l.range lt i) in
      (
        o,
        ground (arith, q, e, f, append_assoc l.batch (rp ∷ []) rps),
        g,
        λ k s. spans k (elim s [
          | inl (inl x) ↦ inr (at_id k x)
          | inl (inr y) ↦ inl y
          | inr z ↦ inr (widen-Spans k id l.range z)
        ]),
      )

  exact :
      (start n : ℕ) (o : Option Range)
      → Within start (suc n) o
      → Spans start o
      → Spans (start + n) o
      → o ≡ some (record { start = start; end_ = start + n })
  exact start n none i a b = absurd a
  exact start n (some r) (i, j, k) (a, b) (c, d) =
      let p : r.start ≡ start = omega (arith, i, a) in
      let q : r.end_ ≡ start + n = omega (arith, k, d) in cc (p, q)

  -- If the elements of the server's array are read as responses whose ids lie in the range of a
  -- pending batch, its first and its last id among them, then the front end is given one vector, as
  -- long as the batch, with the last response with each id at the id's place, or the placeholder.
  -- There are no further messages, and the batch is no longer pending.
  pub handle_backend_messages_batch :
      (w : World rt) (raw : Json) (rs : List Json) (rps : List RawResponse) (start n : ℕ)
      (o : rt.Oneshot)
      → first_non_whitespace raw ≡ some b'['
      → rt.read_array raw ≡ some rs
      → ReadAs rs rps
      → InRange start (suc n) rps
      → Has start rps
      → Has (start + n) rps
      → start + suc n < u64_mod
      → find_batch w.manager (ids_from start (suc n)) ≡ some o
      → (out : List RawResponse) × (handle_backend_messages rt (received (bytes raw)) w
          ≡ (done [], deliver rt (taken rt w (ids_from start (suc n))) (batch_reply o (ok out))))
        × (length out ≡ suc n)
        × ((i : ℕ) → i < suc n → get_elem? out i ≡ some (latest (start + i) rps placeholder))
  unfolding handle_backend_messages
  handle_backend_messages_batch w raw rs rps start n o first arr q h lo hi bound found =
      let l : Loop rt = record {
        world = w;
        batch = [];
        range = none;
        got_notif = false;
        messages = [];
      } in
      let (r, e, i, spans) = elements_lem raw rs rps l start (suc n) q h tt in
      let same = exact start n r i (spans start (inl lo)) (spans (start + n) (inl hi)) in
      let range = ids_from start (suc n) in
      let size : (start + suc n) - start ≡ suc n = omega arith in
      let end_ : (start + n + 1) % u64_mod ≡ start + suc n = omega (arith, bound) in
      let (out, f, len, at) =
        process_batch_response_in_order rt w rps range o found
          (subst (λ m. InRange start m rps) (sym size) h) in
      (
        out,
        ground (arith, first, arr, e, same, end_, f),
        len ∙ size,
        λ i lt. at i (omega (arith, lt, size)),
      )
