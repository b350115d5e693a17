-- ===== src/Client/Params.antt =====
-- core/src/params.rs: the builder of the parameters of a request.
pub mod Built
use jsonrpseex.Prelude.{
  ℕ, ◌-◌, Option, none, some, List, [], ◌∷◌, ◌++◌, Bool, length, set, get_elem?, ◌==◌,
  if◌then◌else◌,
}
use jsonrpseex.Types.Result.{Result, ok, err}
use jsonrpseex.Types.Error.{Json}

-- What serde_json writes of a value, and whether it writes it to its end.
pub record Value : Type 0 where
  pub text : Json
  pub complete : Bool

pub record ParamsBuilder : Type 0 where
  pub bytes : Json
  pub start : ℕ
  pub end_ : ℕ

-- `positional` and `named`
abbrev pub positional : ParamsBuilder
positional = record { bytes = []; start = b'['; end_ = b']' }

abbrev pub named : ParamsBuilder
named = record { bytes = []; start = b'{'; end_ = b'}' }

unfoldable pub maybe_initialize : ParamsBuilder → ParamsBuilder
maybe_initialize b = elim b.bytes [ [] ↦ record b { bytes = b.start ∷ [] } | _ ∷ _ ↦ b ]

abbrev push : ParamsBuilder → Json → ParamsBuilder
push b text = record b { bytes = b.bytes ++ text }

-- A value that cannot be written to its end leaves what was written of it.
unfoldable pub insert : ParamsBuilder → Value → Result (Unit {0}) (Unit {0}) × ParamsBuilder
unfolding maybe_initialize
insert b value =
    let written = push (maybe_initialize b) value.text in
    if value.complete then (ok tt, push written (b',' ∷ [])) else (err tt, written)

-- The name is a text, which serde_json always writes to its end.
unfoldable pub insert_named :
    ParamsBuilder → Json → Value → Result (Unit {0}) (Unit {0}) × ParamsBuilder
unfolding maybe_initialize
insert_named b name value =
    let keyed = push (push (maybe_initialize b) name) (b':' ∷ []) in
    let written = push keyed value.text in
    if value.complete then (ok tt, push written (b',' ∷ [])) else (err tt, written)

-- The last byte, if it is a comma, becomes the closing bracket.
close : ParamsBuilder → ℕ → Option ℕ → Json
close b idx (some c) = if c == b',' then set b.bytes idx b.end_ else b.bytes ++ b.end_ ∷ []
close b idx none = b.bytes ++ b.end_ ∷ []

unfoldable pub build : ParamsBuilder → Option Json
unfolding close
build b = elim b.bytes [
  | [] ↦ none
  | _ ∷ _ ↦ let idx = length b.bytes - 1 in some (close b idx (get_elem? b.bytes idx))
]
