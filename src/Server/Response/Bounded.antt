-- ===== src/Server/Response/Bounded.antt =====
-- The bounded writer, against the whole text.
use jsonrpseex.Prelude.{
  ℕ, ◌+◌, ◌≤◌, ◌<◌, ◌≡◌, ◌⊎◌, List, [], ◌∷◌, ◌++◌, Bool, true, leb, length, length-append,
  append_assoc, append-nil, concat, arith, Bool-cases, inl, inr,
}
use jsonrpseex.Types.Result.{ok, err}
use jsonrpseex.Types.Ids.{RequestId}
use jsonrpseex.Types.Error
use jsonrpseex.Types.Error.{Json}
use jsonrpseex.Types.Response
use jsonrpseex.Types.Response.{Response}
use jsonrpseex.Server.Runtime.{Runtime, Written}
use jsonrpseex.Server.Response.Kind.{failed}
use jsonrpseex.Server.Response.{
  BoundedWriter, new_writer, write, to_writer, io, Payload, response, result_of, error_json, reject,
}

fits :
    (w : BoundedWriter) (pieces : List Json)
    → length w.buf + length (concat pieces) ≤ w.max_len
    → to_writer w pieces true ≡ ok (record w { buf = w.buf ++ concat pieces })
unfolding to_writer write
fits w [] h = ground (arith, append-nil w.buf)
fits w (p ∷ ps) h =
    let l = length-append p (concat ps) in
    let t : leb (length w.buf + length p) w.max_len ≡ true = ground (arith, l, h) in
    ground (
      arith,
      t,
      append_assoc w.buf p (concat ps),
      fits (record w { buf = w.buf ++ p }) ps (omega (arith, h, l, length-append w.buf p)),
    )

overflows :
    (w : BoundedWriter) (pieces : List Json) (complete : Bool)
    → length w.buf ≤ w.max_len
    → w.max_len < length w.buf + length (concat pieces)
    → to_writer w pieces complete ≡ err io
unfolding to_writer write
overflows w [] c b h = absurd (omega (arith, b, h))
overflows w (p ∷ ps) c b h = elim (Bool-cases (leb (length w.buf + length p) w.max_len)) [
  | inl t ↦
      let l = length-append p (concat ps) in
      let k = length-append w.buf p in
      let room : length w.buf + length p ≤ w.max_len = ground (arith, t) in
      ground (
        arith,
        t,
        overflows (record w { buf = w.buf ++ p }) ps c (omega (arith, room, k))
            (omega (arith, h, l, k)),
      )
  | inr f ↦ ground (arith, f)
]

module _ (rt : Runtime) {T : Type 0} (write_response : Response T → Written) where
  -- The text of the response that serde_json would write without a bound.
  unfoldable pub text : RequestId → Payload rt T → Json
  unfolding Response.new
  text id rp = concat (write_response (Response.new rp.inner id)).pieces

  -- A value that serde_json can serialize gives a response with exactly its text, and with the
  -- outcome of its payload, if the text has at most `max` bytes; else it is the error for an
  -- oversized response.
  pub response_lem :
      (id : RequestId) (rp : Payload rt T) (max : ℕ)
      → (write_response (Response.new rp.inner id)).complete ≡ true
      → let r = response rt write_response id rp max in
        ((length (text id rp) ≤ max)
          × (r.json ≡ text id rp)
          × (r.success_or_error ≡ result_of rt rp.inner))
        ⊎ ((max < length (text id rp))
            × (r.success_or_error ≡ failed Error.oversized_response_code)
            × (r.json
                ≡ error_json rt id
                    (reject rt Error.oversized_response_code "Response is too big" max)))
  unfolding response text
  response_lem id rp max c =
      let w = write_response (Response.new rp.inner id) in
      elim (Bool-cases (leb (length (text id rp)) max)) [
        | inl t ↦
            let h : length (text id rp) ≤ max = ground (arith, t) in
            let f = fits (new_writer max) w.pieces (omega (arith, h)) in
            inl (h, ground (arith, c, f), ground (arith, c, f))
        | inr t ↦
            let h : max < length (text id rp) = ground (arith, t) in
            let f =
              overflows (new_writer max) w.pieces w.complete (omega arith) (omega (arith, h)) in
            inr (h, ground (arith, f), ground (arith, f))
      ]
