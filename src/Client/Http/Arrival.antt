-- ===== src/Client/Http/Arrival.antt =====
-- How a body arrives at the other end of an HTTP connection.
use jsonrpseex.Prelude.{
  ℕ, ◌≡◌, ◌≤◌, ◌<◌, arith, some, List, ◌∷◌, ◌++◌, Bool, true, false, length, concat,
}
use jsonrpseex.Types.Result.{Result, ok, err}
use jsonrpseex.Types.Error.{Json}
use jsonrpseex.Client.Backend.{is_ascii_whitespace}
use jsonrpseex.Server.Body.{Frame, too_large, trim, read_body}
use jsonrpseex.Server.Body.Chunks.{chunks, read_body-chunks}
use jsonrpseex.Client.Http.{HttpStack}

-- The first byte of a single request or response, or of a batch.
abbrev pub first_byte : Bool → ℕ
first_byte true = b'{'
first_byte false = b'['

module _ (hs : HttpStack) where
  -- A body that is not too long comes in chunks, of which the first is not empty.
  abbrev pub Arrives : (Json → List (Result hs.E Frame)) → Type 0
  Arrives frames =
      (max b : ℕ) (j : Json)
      → length (b ∷ j) ≤ max
      → (cs : Json) × (rest : List Json) × (hs.limited max (frames (b ∷ j))
          ≡ chunks ((b ∷ cs) ∷ rest))
        × (cs ++ concat rest ≡ j)

  pub read_body-arrived :
      (frames : Json → List (Result hs.E Frame)) (max : ℕ) (single : Bool) (j : Json)
      → Arrives frames
      → length (first_byte single ∷ j) ≤ max
      → read_body hs.limited
          (some (length (first_byte single ∷ j)))
          (frames (first_byte single ∷ j))
          max
        ≡ ok (first_byte single ∷ j, single)
  unfolding trim is_ascii_whitespace
  read_body-arrived frames max true j arr h =
      let (cs, rest, e, f) = arr max b'{' j h in
      let r =
        read_body-chunks hs.limited (length (b'{' ∷ j)) max (frames (b'{' ∷ j)) (b'{' ∷ cs) rest h
          e in
      ground (arith, r, f)
  read_body-arrived frames max false j arr h =
      let (cs, rest, e, f) = arr max b'[' j h in
      let r =
        read_body-chunks hs.limited (length (b'[' ∷ j)) max (frames (b'[' ∷ j)) (b'[' ∷ cs) rest h
          e in
      ground (arith, r, f)

  pub read_body-too_long :
      (n max : ℕ) (frames : List (Result hs.E Frame))
      → max < n
      → read_body hs.limited (some n) frames max ≡ err too_large
  unfolding read_body
  read_body-too_long n max frames h = ground (arith, h)
