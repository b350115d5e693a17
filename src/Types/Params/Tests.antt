-- ===== src/Types/Params/Tests.antt =====
-- Runs of the readers of parameters on small inputs.
use jsonrpseex.Prelude.{ℕ, ◌≡◌, refl, arith, some, [], ◌∷◌, false}
use jsonrpseex.Types.Result.{err}
use jsonrpseex.Prelude.Separated.{delimited}
use jsonrpseex.Types.Params.{
  Text, Item, value, no_item, no_more_params, new, sequence, next, next_inner,
}
use jsonrpseex.Types.Params.Drain.{Consumes, is_value, drain, drain_ends}
use jsonrpseex.Types.Params.Sequence.{next_all, oks, writes, next_all-sequence}

-- A value is one character.
abbrev one_character : Text → Item (Unit {0}) ℕ
one_character [] = no_item
one_character (c ∷ cs) = value c cs

one_character-Consumes : Consumes one_character
one_character-Consumes [] rest v e = absurd (ground (arith, e))
one_character-Consumes (c ∷ cs) rest v e = ground (arith, e)

drain_ends_example :
    is_value one_character
      (next_inner one_character (drain one_character 5 (b'[' ∷ b'7' ∷ b']' ∷ [])).1)
    ≡ false
drain_ends_example =
    drain_ends one_character 5 (b'[' ∷ b'7' ∷ b']' ∷ []) one_character-Consumes (omega arith)

next_all-sequence_example :
    let (rs, rest) = next_all one_character 2 (
      sequence
        (new (some (delimited b'[' b']' (writes one_character (λ v. v ∷ []) (7 ∷ 8 ∷ [])))))) in
    (rs ≡ oks (7 ∷ 8 ∷ [])) × (next one_character rest ≡ (err no_more_params, []))
next_all-sequence_example =
    next_all-sequence one_character (λ v. v ∷ []) (7 ∷ 8 ∷ []) (λ v c rest e. refl)
      one_character-Consumes
