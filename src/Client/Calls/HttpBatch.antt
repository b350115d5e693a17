-- ===== src/Client/Calls/HttpBatch.antt =====
-- The HTTP client's batch response against the asynchronous client's.
use jsonrpseex.Prelude.{
  Option, ℕ, zero, suc, ◌+◌, ◌-◌, ◌≡◌, inl, inr, refl, arith, ap, subst, List, [], ◌∷◌, length, set,
  replicate, true, Bool-cases, leb, ltb, ◌&&◌,
}
use jsonrpseex.Types.Result.{Result, ok, err, Result-cases}
use jsonrpseex.Types.Ids.{try_parse_inner_as_number}
use jsonrpseex.Types.Error.{ErrorObject, Json}
use jsonrpseex.Client.World.{RawResponse}
use jsonrpseex.Client.Helpers
use jsonrpseex.Client.Helpers.{fill}
use jsonrpseex.Client.Calls.{
  BatchResponse, counted, converted, place, placeholder, http_batch_response,
}

module _ {R : Type 0} (from_str : Json → Option R) where
  -- Each response of the first list is converted to the result in its place of the second.
  abbrev pub Converts : List RawResponse → List (Result ErrorObject R) → Type 0
  Converts [] [] = Unit {0}
  Converts [] (_ ∷ _) = ⊥
  Converts (_ ∷ _) [] = ⊥
  Converts (rp ∷ rps) (r ∷ rs) = (converted from_str rp ≡ ok r) × Converts rps rs

  Converts-set :
      (rps : List RawResponse) (rs : List (Result ErrorObject R)) (i : ℕ) (rp : RawResponse)
      (r : Result ErrorObject R)
      → Converts rps rs
      → converted from_str rp ≡ ok r
      → Converts (set rps i rp) (set rs i r)
  Converts-set [] [] i rp r c e = tt
  Converts-set [] (_ ∷ _) i rp r c e = absurd c
  Converts-set (_ ∷ _) [] i rp r c e = absurd c
  Converts-set (x ∷ rps) (y ∷ rs) zero rp r (c, cs) e = (e, cs)
  Converts-set (x ∷ rps) (y ∷ rs) (suc i) rp r (c, cs) e = (c, Converts-set rps rs i rp r cs e)

  Converts-length :
      (rps : List RawResponse) (rs : List (Result ErrorObject R))
      → Converts rps rs
      → length rps ≡ length rs
  Converts-length [] [] c = refl
  Converts-length [] (_ ∷ _) c = absurd c
  Converts-length (_ ∷ _) [] c = absurd c
  Converts-length (x ∷ rps) (y ∷ rs) (c, cs) = ap suc (Converts-length rps rs cs)

  -- The batch response after a result was put at a place.
  after_result : BatchResponse R → ℕ → Result ErrorObject R → BatchResponse R
  unfolding counted
  after_result b i r = record (counted from_str b r) { responses = set b.responses i r }

  after_result_lem :
      (b : BatchResponse R) (i : ℕ) (r : Result ErrorObject R)
      → ((after_result b i r).responses ≡ set b.responses i r)
        × ((after_result b i r).successful_calls + (after_result b i r).failed_calls
            ≡ suc (b.successful_calls + b.failed_calls))
  unfolding after_result
  after_result_lem b i (ok r) = (refl, omega arith)
  after_result_lem b i (err e) = (refl, omega arith)

  -- A response that the loop goes on after.
  step :
      (start : ℕ) (rp : RawResponse) (rps : List RawResponse) (b out : BatchResponse R)
      → place from_str start (rp ∷ rps) b ≡ ok out
      → (id : ℕ) × (r : Result ErrorObject R) × (try_parse_inner_as_number rp.id ≡ ok id)
        × (converted from_str rp ≡ ok r)
        × ((leb start id && ltb (id - start) (length b.responses)) ≡ true)
        × (place from_str start rps (after_result b (id - start) r) ≡ ok out)
  unfolding place after_result
  step start rp rps b out e = elim (Result-cases (try_parse_inner_as_number rp.id)) [
    | inr (x, p) ↦ absurd (ground (arith, e, p))
    | inl (id, p) ↦ elim (Result-cases (converted from_str rp)) [
      | inr (x, c) ↦ absurd (ground (arith, e, p, c))
      | inl (r, c) ↦ elim (Bool-cases (leb start id && ltb (id - start) (length b.responses))) [
        | inr t ↦ absurd (ground (arith, e, p, c, t))
        | inl t ↦ (id, r, p, c, t, ground (arith, e, p, c, t))
      ]
    ]
  ]

  place_lem :
      (start : ℕ) (rps acc : List RawResponse) (b out : BatchResponse R)
      → Converts acc b.responses
      → place from_str start rps b ≡ ok out
      → (filled : List RawResponse) × (fill start rps acc ≡ ok filled)
        × Converts filled out.responses
        × (out.successful_calls + out.failed_calls
            ≡ (b.successful_calls + b.failed_calls) + length rps)
  unfolding place fill after_result
  place_lem start [] acc b out c e =
      let q : b ≡ out = ground (arith, e) in
      (acc, refl, subst (λ o. Converts acc o.responses) q c, ground (arith, q))
  place_lem start (rp ∷ rps) acc b out c e =
      let (id, r, p, v, t, f) = step start rp rps b out e in
      let (g, h) = after_result_lem b (id - start) r in
      let (filled, x, y, z) =
        place_lem start rps (set acc (id - start) rp) (after_result b (id - start) r) out
          (Converts-set acc b.responses (id - start) rp r c v) f in
      (filled, ground (arith, p, t, Converts-length acc b.responses c, x), y, omega (arith, z, h))

  all_placeholders :
      (n : ℕ) → Converts (replicate n Helpers.placeholder) (replicate n (err placeholder))
  unfolding converted Helpers.placeholder placeholder
  all_placeholders zero = tt
  all_placeholders (suc n) = (refl, all_placeholders n)

  -- If the HTTP client makes a batch response, then the message handler of the asynchronous client
  -- accepts the same responses for a range that starts at the same id and has as many ids as there
  -- are responses, and the HTTP client's results are its, converted one by one: the results of the
  -- last response with each id in the order of the ids, with the placeholder for an id without a
  -- response. The counts of successful and failed calls add up to the number of the responses.
  pub http_batch_response-fill :
      (start : ℕ) (rps : List RawResponse) (out : BatchResponse R)
      → http_batch_response from_str start rps ≡ ok out
      → (filled : List RawResponse) × (fill start rps (replicate (length rps) Helpers.placeholder)
          ≡ ok filled)
        × Converts filled out.responses
        × (out.successful_calls + out.failed_calls ≡ length rps)
  unfolding http_batch_response
  http_batch_response-fill start rps out e =
      let b : BatchResponse R = record {
        successful_calls = 0;
        failed_calls = 0;
        responses = replicate (length rps) (err placeholder);
      } in
      let (filled, x, y, z) =
        place_lem start rps (replicate (length rps) Helpers.placeholder) b out
          (all_placeholders (length rps)) e in
      (filled, x, y, omega (arith, z))
