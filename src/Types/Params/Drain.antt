-- ===== src/Types/Params/Drain.antt =====
-- Reading parameters one after the other ends.
use jsonrpseex.Prelude.{
  ℕ, zero, suc, ◌≤◌, ◌<◌, ◌≡◌, ◌∙◌, ◌⊎◌, inl, inr, refl, arith, ap, Option, none, some, List, [],
  ◌∷◌, length, Bool, true, false,
}
use jsonrpseex.Types.Result.{Result, ok, err}
use jsonrpseex.Types.Params.{Text, Item, value, no_item, bad, InvalidParams, trim_start, next_inner}

length-trim_start : (t : Text) → length (trim_start t) ≤ length t
unfolding trim_start
length-trim_start [] = omega arith
length-trim_start (c ∷ cs) = ground (arith, length-trim_start cs)

Item-cases :
    {E T : Type 0} (i : Item E T)
    → (i ≡ no_item) ⊎ ((e : E) × (i ≡ bad e)) ⊎ ((t : T) × (rest : Text) × (i ≡ value t rest))
Item-cases no_item = inl refl
Item-cases (bad e) = inr (inl (e, refl))
Item-cases (value t rest) = inr (inr (t, rest, refl))

module _ {E T : Type 0} (next_value : Text → Item E T) where
  -- A value that is read is followed by less text than it was read from.
  abbrev pub Consumes : Type 0
  Consumes = (t rest : Text) (v : T) → next_value t ≡ value v rest → length rest < length t

  next_inner_shorter :
      (t rest : Text) (v : T)
      → Consumes
      → next_inner next_value t ≡ (some (ok v), rest)
      → length rest < length t
  unfolding next_inner
  next_inner_shorter [] rest v law e = absurd (ground (arith, e))
  next_inner_shorter (c ∷ cs) rest v law e = elim (Item-cases (next_value cs)) [
    | inl f ↦ absurd (ground (arith, e, f))
    | inr (inl (x, f)) ↦ absurd (ground (arith, e, f))
    | inr (inr (u, left, f)) ↦ ground (arith, e, f, law cs left u f, length-trim_start left)
  ]

  drain_after :
      (Text → List T × Text) → Text → Option (Result (InvalidParams E) T) × Text → List T × Text
  drain_after rest t (some (ok v), t') = let (vs, end) = rest t' in (v ∷ vs, end)
  drain_after rest t (some (err e), t') = ([], t)
  drain_after rest t (none, t') = ([], t)

  -- Parameters are read until there is no further one, or an error: the values, and the text before
  -- the read that gives none.
  unfoldable pub drain : ℕ → Text → List T × Text
  unfolding next_inner drain_after
  drain zero t = ([], t)
  drain (suc fuel) t = drain_after (λ t'. drain fuel t') t (next_inner next_value t)

  -- Whether a read gives a value.
  unfoldable pub is_value : Option (Result (InvalidParams E) T) × Text → Bool
  is_value (some (ok v), t) = true
  is_value (some (err e), t) = false
  is_value (none, t) = false

  stops :
      (rest : Text → List T × Text) (t : Text) (o : Option (Result (InvalidParams E) T) × Text)
      → ((v : T) × (t' : Text) × (o ≡ (some (ok v), t')) × (drain_after rest t o).1 ≡ (rest t').1)
        ⊎ ((is_value o ≡ false) × ((drain_after rest t o).1 ≡ t))
  unfolding drain_after is_value
  stops rest t (some (ok v), t') = inl (v, t', refl, refl)
  stops rest t (some (err e), t') = inr (refl, refl)
  stops rest t (none, t') = inr (refl, refl)

  -- Reading parameters one after the other ends: if serde_json's values take at least one character
  -- each, then after at most as many values as the text has characters the next read gives no value.
  pub drain_ends :
      (fuel : ℕ) (t : Text)
      → Consumes
      → length t ≤ fuel
      → is_value (next_inner next_value (drain fuel t).1) ≡ false
  unfolding drain is_value
  drain_ends zero [] law enough = ground arith
  drain_ends zero (c ∷ cs) law enough = absurd (omega (arith, enough))
  drain_ends (suc fuel) t law enough =
      elim (stops (λ t'. drain fuel t') t (next_inner next_value t)) [
        | inl (u, t', f, g) ↦
            ap (λ x. is_value (next_inner next_value x)) g
            ∙ drain_ends fuel t' law (omega (arith, enough, next_inner_shorter t t' u law f))
        | inr (f, g) ↦ ap (λ x. is_value (next_inner next_value x)) g ∙ f
      ]
