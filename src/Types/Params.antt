-- ===== src/Types/Params.antt =====
-- types/src/params.rs: the parameters of a request, and the reader of a sequence of them. A text is
-- the list of its code points.
pub mod Drain
pub mod Sequence
mod Tests
use jsonrpseex.Prelude.{
  ℕ, Option, none, some, List, [], ◌∷◌, Bool, true, false, ◌&&◌, ◌||◌, ◌==◌, leb, if◌then◌else◌,
}
use jsonrpseex.Types.Result.{Result, ok, err}

abbrev pub Text : Type 0
Text = List ℕ

-- `char::is_whitespace`: the property White_Space of Unicode.
unfoldable pub is_whitespace : ℕ → Bool
is_whitespace c =
    (leb 9 c && leb c 13)
    || c == 32
    || c == 133
    || c == 160
    || c == 5760
    || (leb 8192 c && leb c 8202)
    || c == 8232
    || c == 8233
    || c == 8239
    || c == 8287
    || c == 12288

unfoldable pub trim_start : Text → Text
unfolding is_whitespace
trim_start [] = []
trim_start (c ∷ cs) = let rest = trim_start cs in if is_whitespace c then rest else c ∷ cs

-- A character and what is left of those after it.
unfoldable pub keep : ℕ → Text → Text
unfolding is_whitespace
keep c [] = if is_whitespace c then [] else c ∷ []
keep c (d ∷ ds) = c ∷ d ∷ ds

unfoldable pub trim_end : Text → Text
unfolding keep
trim_end [] = []
trim_end (c ∷ cs) = keep c (trim_end cs)

abbrev pub Params : Type 0
Params = Option Text

-- `Params::new`
unfoldable pub new : Option Text → Params
unfolding trim_start trim_end
new none = none
new (some raw) = some (trim_end (trim_start raw))

unfoldable pub is_object : Params → Bool
is_object none = false
is_object (some []) = false
is_object (some (c ∷ _)) = c == b'{'

no_params_if : Text → Text
no_params_if [] = []
no_params_if (a ∷ []) = a ∷ []
no_params_if (a ∷ b ∷ []) = if a == b'[' && b == b']' then [] else a ∷ b ∷ []
no_params_if (a ∷ b ∷ c ∷ cs) = a ∷ b ∷ c ∷ cs

-- A `ParamsSequence` is the text that is left.
unfoldable pub sequence : Params → Text
unfolding no_params_if
sequence none = []
sequence (some json) = no_params_if json

-- What `invalid_params` is made of: serde_json's error, or one of the reader's own messages.
pub data InvalidParams (E : Type 0) : Type 0 where
  deserialize : E → InvalidParams E
  expected_separator : Text → InvalidParams E
  no_more_params : InvalidParams E

-- What serde_json's stream of values yields first: nothing, a value and the text after it, or an
-- error.
pub data Item (E T : Type 0) : Type 0 where
  no_item : Item E T
  value : T → Text → Item E T
  bad : E → Item E T

or_null : Params → Text
or_null none = b'n' ∷ b'u' ∷ b'l' ∷ b'l' ∷ []
or_null (some json) = json

module _ {E T : Type 0} where
  map_err : Result E T → Result (InvalidParams E) T
  map_err (ok t) = ok t
  map_err (err e) = err (deserialize e)

  -- `from_str` is serde_json's; `one` is this with the reader of an array of one element.
  unfoldable pub parse : (Text → Result E T) → Params → Result (InvalidParams E) T
  unfolding map_err or_null
  parse from_str p = map_err (from_str (or_null p))

  after_item : Text → Item E T → Option (Result (InvalidParams E) T) × Text
  unfolding trim_start
  after_item json no_item = (none, json)
  after_item json (value t rest) = (some (ok t), trim_start rest)
  after_item json (bad e) = (some (err (deserialize e)), [])

  module _ (next_value : Text → Item E T) where
    by_first : ℕ → Text → Option (Result (InvalidParams E) T) × Text
    unfolding after_item
    by_first c cs =
        if c == b']'
        then (none, [])
        else if c == b'[' || c == b','
        then after_item (c ∷ cs) (next_value cs)
        else (some (err (expected_separator (c ∷ cs))), c ∷ cs)

    unfoldable pub next_inner : Text → Option (Result (InvalidParams E) T) × Text
    unfolding by_first
    next_inner [] = (none, [])
    next_inner (c ∷ cs) = by_first c cs

    or_no_more : Option (Result (InvalidParams E) T) → Result (InvalidParams E) T
    or_no_more none = err no_more_params
    or_no_more (some r) = r

    unfoldable pub next : Text → Result (InvalidParams E) T × Text
    unfolding or_no_more next_inner
    next json = let (r, rest) = next_inner json in (or_no_more r, rest)

or_missing :
    {E T : Type 0}
    → Option (Result (InvalidParams E) (Option T))
    → Result (InvalidParams E) (Option T)
or_missing none = ok none
or_missing (some r) = r

unfoldable pub optional_next :
    {E T : Type 0} → (Text → Item E (Option T)) → Text → Result (InvalidParams E) (Option T) × Text
unfolding or_missing next_inner
optional_next next_value json = let (r, rest) = next_inner next_value json in (or_missing r, rest)
