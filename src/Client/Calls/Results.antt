-- ===== src/Client/Calls/Results.antt =====
-- core/src/client/mod.rs: `BatchResponse::into_ok`, and `ok`, which gives the same by reference.
use jsonrpseex.Prelude.{
  ◌+◌, ◌≡◌, ◌⊎◌, inl, inr, refl, arith, List, [], ◌∷◌, ◌++◌, map, ltb, length, if◌then◌else◌,
  Option,
}
use jsonrpseex.Types.Result.{Result, ok, err}
use jsonrpseex.Types.Error.{ErrorObject, Json}
use jsonrpseex.Client.World.{RawResponse, ClientError}
use jsonrpseex.Client.Calls.{BatchResponse, no_responses, collect, pushed, converted, counted}

module _ {R : Type 0} where
  -- The two `filter_map`s.
  unfoldable pub errors : List (Result ErrorObject R) → List ErrorObject
  errors [] = []
  errors (ok r ∷ rs) = errors rs
  errors (err e ∷ rs) = e ∷ errors rs

  unfoldable pub successes : List (Result ErrorObject R) → List R
  successes [] = []
  successes (ok r ∷ rs) = r ∷ successes rs
  successes (err e ∷ rs) = successes rs

  unfoldable pub into_ok : BatchResponse R → Result (List ErrorObject) (List R)
  unfolding errors successes
  into_ok b = if ltb 0 b.failed_calls then err (errors b.responses) else ok (successes b.responses)

  length-errors-append :
      (rs : List (Result ErrorObject R)) (r : Result ErrorObject R)
      → length (errors (rs ++ r ∷ [])) ≡ length (errors rs) + length (errors (r ∷ []))
  unfolding errors
  length-errors-append [] r = ground arith
  length-errors-append (ok x ∷ rs) r = length-errors-append rs r
  length-errors-append (err e ∷ rs) r = ground (arith, length-errors-append rs r)

  no_errors :
      (rs : List (Result ErrorObject R)) → length (errors rs) ≡ 0 → map ok (successes rs) ≡ rs
  unfolding errors successes
  no_errors [] h = refl
  no_errors (ok x ∷ rs) h = cc (no_errors rs h)
  no_errors (err e ∷ rs) h = absurd (omega arith)

  by_errors :
      (b : BatchResponse R) (es : List ErrorObject)
      → errors b.responses ≡ es
      → b.failed_calls ≡ length es
      → ((xs : List R) × (into_ok b ≡ ok xs) × (map ok xs ≡ b.responses))
        ⊎ ((e : ErrorObject) × (es : List ErrorObject) × (into_ok b ≡ err (e ∷ es))
            × (errors b.responses ≡ e ∷ es))
  unfolding into_ok
  by_errors b [] h f =
      inl (successes b.responses, ground (arith, f), no_errors b.responses (ground (arith, h)))
  by_errors b (e ∷ es) h f = inr (e, es, ground (arith, f, h), h)

  module _ (from_str : Json → Option R) where
    pushed_lem :
        (rest : BatchResponse R → Result ClientError (BatchResponse R)) (b b' : BatchResponse R)
        (r : Result ClientError (Result ErrorObject R))
        → pushed from_str rest b r ≡ ok b'
        → b.failed_calls ≡ length (errors b.responses)
        → (b'' : BatchResponse R) × (b''.failed_calls ≡ length (errors b''.responses))
          × (rest b'' ≡ ok b')
    unfolding pushed counted errors
    pushed_lem rest b b' (err e) h c = absurd (cc h)
    pushed_lem rest b b' (ok (ok x)) h c = (
      record (counted from_str b (ok x)) { responses = b.responses ++ ok x ∷ [] },
      ground (arith, c, length-errors-append b.responses (ok x)),
      h,
    )
    pushed_lem rest b b' (ok (err e)) h c = (
      record (counted from_str b (err e)) { responses = b.responses ++ err e ∷ [] },
      ground (arith, c, length-errors-append b.responses (err e)),
      h,
    )

    failed_calls-collect :
        (rps : List RawResponse) (b b' : BatchResponse R)
        → collect from_str rps b ≡ ok b'
        → b.failed_calls ≡ length (errors b.responses)
        → b'.failed_calls ≡ length (errors b'.responses)
    unfolding collect
    failed_calls-collect [] b b' h c = let e : b ≡ b' = cc h in ground (arith, e, c)
    failed_calls-collect (rp ∷ rps) b b' h c =
        let (b'', c', h') =
          pushed_lem (λ x. collect from_str rps x) b b' (converted from_str rp) h c in
        failed_calls-collect rps b'' b' h' c'

    -- The results of a batch that was answered are given as a success exactly if they are all of
    -- them, in order; else there is at least one error, and all errors are given.
    pub into_ok-collect :
        (rps : List RawResponse) (b : BatchResponse R)
        → collect from_str rps no_responses ≡ ok b
        → ((xs : List R) × (into_ok b ≡ ok xs) × (map ok xs ≡ b.responses))
          ⊎ ((e : ErrorObject) × (es : List ErrorObject) × (into_ok b ≡ err (e ∷ es))
              × (errors b.responses ≡ e ∷ es))
    unfolding errors
    into_ok-collect rps b h =
        by_errors b (errors b.responses) refl
          (failed_calls-collect rps no_responses b h (ground arith))
