-- ===== src/Server/Body.antt =====
-- core/src/http_helpers.rs: reading the body of a request.
pub mod Chunks
use jsonrpseex.Prelude.{
  ℕ, zero, suc, Option, none, some, List, [], ◌∷◌, ◌++◌, Bool, true, false, ltb, ◌==◌,
  if◌then◌else◌,
}
use jsonrpseex.Types.Result.{Result, ok, err}
use jsonrpseex.Types.Error.{Json}
use jsonrpseex.Client.Backend.{is_ascii_whitespace}

-- The error of the body's stream is `E`.
pub data HttpError (E : Type 0) : Type 0 where
  too_large malformed : HttpError E
  stream : E → HttpError E

-- A frame of the body: data, or trailers.
pub data Frame : Type 0 where
  data_ : Json → Frame
  trailers : Frame

-- The first byte that is no whitespace among the first `n`, and the bytes from it on.
unfoldable pub trim : ℕ → Json → Option (ℕ × Json)
unfolding is_ascii_whitespace
trim zero bytes = none
trim (suc n) [] = none
trim (suc n) (b ∷ bytes) =
    let rest = trim n bytes in if is_ascii_whitespace b then rest else some (b, b ∷ bytes)

abbrev pub Step : Type 0 → Type 0
Step E = Result (HttpError E) (Json × Option Bool)

or_zero : Option ℕ → ℕ
or_zero none = 0
or_zero (some n) = n

module _ {E : Type 0} where
  first_chunk : Option (ℕ × Json) → Step E
  first_chunk none = err malformed
  first_chunk (some (b, bytes)) =
      if b == b'{'
      then ok (bytes, some true)
      else if b == b'['
      then ok (bytes, some false)
      else err malformed

  -- One chunk: the received bytes, and whether the request is single.
  unfoldable pub receive : Json → Option Bool → Json → Step E
  unfolding first_chunk trim
  receive [] is_single chunk = first_chunk (trim 128 chunk)
  receive (b ∷ bytes) is_single chunk = ok (b ∷ bytes ++ chunk, is_single)

  -- The loop over the frames of the limited body.
  unfoldable pub receive_all : List (Result E Frame) → Json → Option Bool → Step E
  unfolding receive
  receive_all [] received is_single = ok (received, is_single)
  receive_all (err e ∷ frames) received is_single = err (stream e)
  receive_all (ok trailers ∷ frames) received is_single = receive_all frames received is_single
  receive_all (ok (data_ chunk) ∷ frames) received is_single =
      elim (receive received is_single chunk) [
        | err e ↦ err e
        | ok (received', is_single') ↦ receive_all frames received' is_single'
      ]

  done : Step E → Result (HttpError E) (Json × Bool)
  done (err e) = err e
  done (ok (b ∷ bytes, some single)) = ok (b ∷ bytes, single)
  done (ok _) = err malformed

  -- `content_length` is what the header says, if it fits into a `u32`; `limited` is http_body_util's
  -- limit on the frames of a body.
  unfoldable pub read_body :
      (ℕ → List (Result E Frame) → List (Result E Frame))
      → Option ℕ
      → List (Result E Frame)
      → ℕ
      → Result (HttpError E) (Json × Bool)
  unfolding receive_all done or_zero
  read_body limited content_length frames max_body_size =
      if ltb max_body_size (or_zero content_length)
      then err too_large
      else done (receive_all (limited max_body_size frames) [] none)
