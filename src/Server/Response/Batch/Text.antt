-- ===== src/Server/Response/Batch/Text.antt =====
-- The text of a batch response, and its size.
use jsonrpseex.Prelude.{
  ℕ, suc, ap, ◌∙◌, leb, ◌+◌, ◌≤◌, ◌<◌, ◌≡◌, refl, sym, ◌⊎◌, List, [], ◌∷◌, ◌++◌, map, length,
  length-append, append_assoc, append-nil, pop-append, arith, Bool-cases, inl, inr, ltb, false,
}
use jsonrpseex.Prelude.Separated.{delimited, commas, closed}
use jsonrpseex.Types.Result.{Result, ok, err}
use jsonrpseex.Types.Ids.{RequestId}
use jsonrpseex.Types.Error.{Json}
use jsonrpseex.Server.Runtime.{Runtime}
use jsonrpseex.Server.Response.{MethodResponse, error, reject_too_big_batch_response}
use jsonrpseex.Server.Response.Batch.{
  BatchResponseBuilder, new_with_limit, append, is_empty, finish,
}

-- The JSON array of some texts.
unfoldable pub array : List Json → Json
unfolding delimited
array = delimited b'[' b']'

module _ (rt : Runtime) where
  abbrev pub jsons : List (MethodResponse rt) → List Json
  jsons = map (λ (r : MethodResponse rt). r.json)

  after_append :
      (BatchResponseBuilder rt → Result (MethodResponse rt) (BatchResponseBuilder rt))
      → Result (MethodResponse rt) (Unit {0}) × BatchResponseBuilder rt
      → Result (MethodResponse rt) (BatchResponseBuilder rt)
  after_append next (ok _, b) = next b
  after_append next (err e, b) = err e

  -- The responses are appended in order, until one does not fit.
  unfoldable pub append_all :
      BatchResponseBuilder rt
      → List (MethodResponse rt)
      → Result (MethodResponse rt) (BatchResponseBuilder rt)
  unfolding append after_append
  append_all b [] = ok b
  append_all b (r ∷ rs) = after_append (λ b'. append_all b' rs) (append rt b r)

  -- The size of the text when `finish` is called.
  abbrev total : BatchResponseBuilder rt → List (MethodResponse rt) → ℕ
  total b rs = length b.result + length (commas (jsons rs))

  append-fits :
      (b : BatchResponseBuilder rt) (r : MethodResponse rt)
      → length b.result + length r.json + 1 ≤ b.max_response_size
      → append rt b r ≡ (
        ok tt,
        record b {
          result = (b.result ++ r.json) ++ b',' ∷ [];
          extensions = rt.extend b.extensions r.extensions;
        },
      )
  unfolding append
  append-fits b r h = ground (arith, h)

  append-overflows :
      (b : BatchResponseBuilder rt) (r : MethodResponse rt)
      → b.max_response_size < length b.result + length r.json + 1
      → (append rt b r).0
        ≡ err (error rt RequestId.null (reject_too_big_batch_response rt b.max_response_size))
  unfolding append
  append-overflows b r h = ground (arith, h)

  added : (b : BatchResponseBuilder rt) (r : MethodResponse rt) → BatchResponseBuilder rt
  added b r = record b {
    result = (b.result ++ r.json) ++ b',' ∷ [];
    extensions = rt.extend b.extensions r.extensions;
  }

  length-commas_cons :
      (r : MethodResponse rt) (rs : List (MethodResponse rt))
      → length (commas (jsons (r ∷ rs))) ≡ length r.json + 1 + length (commas (jsons rs))
  unfolding commas
  length-commas_cons r rs = omega (arith, length-append r.json (b',' ∷ commas (jsons rs)))

  length-added :
      (b : BatchResponseBuilder rt) (r : MethodResponse rt)
      → length (added b r).result ≡ length b.result + length r.json + 1
  unfolding added
  length-added b r =
      omega (arith, length-append (b.result ++ r.json) (b',' ∷ []), length-append b.result r.json)

  append_all-fits :
      (b : BatchResponseBuilder rt) (rs : List (MethodResponse rt))
      → total b rs ≤ b.max_response_size
      → (b' : BatchResponseBuilder rt) × (append_all b rs ≡ ok b')
        × (b'.result ≡ b.result ++ commas (jsons rs))
  unfolding append_all commas added
  append_all-fits b [] h = (b, refl, sym (append-nil b.result))
  append_all-fits b (r ∷ rs) h =
      let l = length-commas_cons r rs in
      let a = append-fits b r (omega (arith, h, l)) in
      let (b', e, f) = append_all-fits (added b r) rs (omega (arith, h, l, length-added b r)) in
      (
        b',
        ground (arith, a, e),
        cc (
          f,
          append_assoc (b.result ++ r.json) (b',' ∷ []) (commas (jsons rs)),
          append_assoc b.result r.json (b',' ∷ commas (jsons rs)),
        ),
      )

  append_all-overflows :
      (b : BatchResponseBuilder rt) (rs : List (MethodResponse rt))
      → (rs ≡ [] → length b.result ≤ b.max_response_size)
      → b.max_response_size < total b rs
      → append_all b rs
        ≡ err (error rt RequestId.null (reject_too_big_batch_response rt b.max_response_size))
  unfolding append_all added commas
  append_all-overflows b [] s h = absurd (omega (arith, s refl, h))
  append_all-overflows b (r ∷ rs) s h =
      let l = length-commas_cons r rs in
      let k = length-added b r in
      elim (Bool-cases (ltb b.max_response_size (length b.result + length r.json + 1))) [
        | inl t ↦ let o = append-overflows b r (ground (arith, t)) in ground (arith, o)
        | inr t ↦
            let room : length b.result + length r.json + 1 ≤ b.max_response_size =
              ground (arith, t) in
            let a = append-fits b r room in
            let ih =
              append_all-overflows (added b r) rs (λ p. omega (arith, k, room))
                (omega (arith, h, l, k)) in
            ground (arith, a, ih)
      ]

  -- A builder that took one response or more gives the JSON array of them, in their order.
  finish_lem :
      (b : BatchResponseBuilder rt) (r : MethodResponse rt) (rs : List (MethodResponse rt))
      → b.result ≡ b'[' ∷ commas (jsons (r ∷ rs))
      → ((finish rt b).json ≡ array (jsons (r ∷ rs))) × (is_empty rt b ≡ false)
  unfolding finish array is_empty
  finish_lem b r rs e =
      let (c, p, q) = closed b']' r.json (jsons rs) in
      let l = length-append c (b',' ∷ []) in
      let big : 1 < length b.result = ground (arith, ap length (e ∙ ap (λ l. b'[' ∷ l) p), l) in
      (ground (arith, e, p, q b'[', big, pop-append b'[' c b','), ground (arith, big))

  length-array :
      (r : MethodResponse rt) (rs : List (MethodResponse rt))
      → length (array (jsons (r ∷ rs))) ≡ suc (length (commas (jsons (r ∷ rs))))
  unfolding array
  length-array r rs =
      let (c, p, q) = closed b']' r.json (jsons rs) in
      let l = length-append c (b',' ∷ []) in
      let k = length-append c (b']' ∷ []) in omega (arith, ap length p, ap length (q b'['), l, k)

  -- Responses of which there is at least one are batched into the JSON array of them, in their
  -- order, if this array has at most `max` bytes; else the
  -- batch is the error for a batch that is too big.
  pub append_all_lem :
      (max : ℕ) (r : MethodResponse rt) (rs : List (MethodResponse rt))
      → ((b : BatchResponseBuilder rt) × (append_all (new_with_limit rt max) (r ∷ rs) ≡ ok b)
          × ((finish rt b).json ≡ array (jsons (r ∷ rs)))
          × (length (finish rt b).json ≤ max)
          × (is_empty rt b ≡ false))
        ⊎ ((max < length (array (jsons (r ∷ rs))))
            × (append_all (new_with_limit rt max) (r ∷ rs)
                ≡ err (error rt RequestId.null (reject_too_big_batch_response rt max))))
  unfolding new_with_limit
  append_all_lem max r rs =
      let b = new_with_limit rt max in
      let n = length-array r rs in
      elim (Bool-cases (leb (length (array (jsons (r ∷ rs)))) max)) [
        | inl t ↦
            let h : length (array (jsons (r ∷ rs))) ≤ max = ground (arith, t) in
            let (b', e, f) = append_all-fits b (r ∷ rs) (omega (arith, h, n)) in
            let (g, z) = finish_lem b' r rs f in inl (b', e, g, ground (arith, h, g), z)
        | inr t ↦
            let h : max < length (array (jsons (r ∷ rs))) = ground (arith, t) in
            inr (h, append_all-overflows b (r ∷ rs) (λ p. absurd (cc p)) (omega (arith, h, n)))
      ]
