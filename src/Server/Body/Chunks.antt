-- ===== src/Server/Body/Chunks.antt =====
-- The chunks of a body.
use jsonrpseex.Prelude.{
  ℕ, zero, suc, Bool-cases, Option-cases, inl, inr, ◌≤◌, ◌≡◌, Option, none, some, List, [], ◌∷◌,
  ◌++◌, map, Bool, true, false, ◌==◌, if◌then◌else◌, concat, append_assoc, append-nil, arith,
}
use jsonrpseex.Types.Result.{Result, ok, err}
use jsonrpseex.Types.Error.{Json}
use jsonrpseex.Client.Backend.{is_ascii_whitespace}
use jsonrpseex.Server.Body.{
  HttpError, malformed, Frame, data_, trim, receive, receive_all, read_body,
}

trimmed : (n b : ℕ) (j bytes : Json) → trim n j ≡ some (b, bytes) → (cs : Json) × (bytes ≡ b ∷ cs)
unfolding trim
trimmed zero b j bytes h = absurd (cc h)
trimmed (suc n) b [] bytes h = absurd (cc h)
trimmed (suc n) b (c ∷ j) bytes h = elim (Bool-cases (is_ascii_whitespace c)) [
  | inl t ↦ trimmed n b j bytes (ground (arith, t, h))
  | inr t ↦ (j, ground (arith, t, h))
]

module _ {E : Type 0} where
  abbrev pub as_data : Json → Result E Frame
  as_data j = ok (data_ j)

  abbrev pub chunks : List Json → List (Result E Frame)
  chunks = map as_data

  later :
      (b : ℕ) (bytes : Json) (is_single : Option Bool) (js : List Json)
      → receive_all (chunks js) (b ∷ bytes) is_single ≡ ok (b ∷ bytes ++ concat js, is_single)
  unfolding receive_all receive
  later b bytes is_single [] = ground (arith, append-nil bytes)
  later b bytes is_single (j ∷ js) =
      ground (arith, append_assoc bytes j (concat js), later b (bytes ++ j) is_single js)

  -- What is read, given the first byte of the first chunk that is no whitespace, among its first
  -- 128, and the chunk from it on: the text from that byte on.
  abbrev pub text_from : Option (ℕ × Json) → List Json → Result (HttpError E) (Json × Bool)
  text_from none js = err malformed
  text_from (some (b, bytes)) js =
      if b == b'{'
      then ok (bytes ++ concat js, true)
      else if b == b'['
      then ok (bytes ++ concat js, false)
      else err malformed

  pub read_body-chunks :
      (limited : ℕ → List (Result E Frame) → List (Result E Frame)) (length_ max : ℕ)
      (frames : List (Result E Frame)) (j : Json) (js : List Json)
      → length_ ≤ max
      → limited max frames ≡ chunks (j ∷ js)
      → read_body limited (some length_) frames max ≡ text_from (trim 128 j) js
  unfolding read_body receive_all receive
  read_body-chunks limited n max frames j js h e = elim (Option-cases (trim 128 j)) [
    | inl t ↦ ground (arith, h, e, t)
    | inr ((b, bytes), t) ↦
        let (cs, q) = trimmed 128 b j bytes t in
        ground (arith, h, e, t, q, later b cs (some true) js, later b cs (some false) js)
  ]
