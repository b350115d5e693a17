-- ===== src/Types/Params/Sequence.antt =====
-- Reading the parameters that stand in an array.
use jsonrpseex.Prelude.{
  ℕ, zero, suc, ◌<◌, ◌≡◌, ◌∙◌, ◌⊎◌, inl, inr, refl, arith, ap, some, List, [], ◌∷◌, ◌++◌, length,
  append_assoc, length-append, sym,
}
use jsonrpseex.Prelude.Separated.{delimited, elements_after}
use jsonrpseex.Types.Result.{Result, ok, err}
use jsonrpseex.Types.Params.{
  Text, Item, value, InvalidParams, no_more_params, trim_start, trim_end, new, sequence, next_inner,
  next, keep,
}
use jsonrpseex.Types.Params.Drain.{Consumes}

keep_append : (c : ℕ) (cs : Text) → keep c (cs ++ b']' ∷ []) ≡ c ∷ cs ++ b']' ∷ []
unfolding keep
keep_append c [] = refl
keep_append c (d ∷ ds) = refl

keeps_bracket : (t : Text) → trim_end (t ++ b']' ∷ []) ≡ t ++ b']' ∷ []
unfolding trim_end
keeps_bracket [] = ground arith
keeps_bracket (c ∷ cs) = cc (keeps_bracket cs, keep_append c cs)

stays : (c : ℕ) (rest : Text) → (c ≡ b',') ⊎ (c ≡ b']') → trim_start (c ∷ rest) ≡ c ∷ rest
unfolding trim_start
stays c rest (inl e) = rw e
stays c rest (inr e) = rw e

begins :
    (js : List Text)
    → (c : ℕ) × (rest : Text) × (elements_after b']' js ≡ c ∷ rest) × ((c ≡ b',') ⊎ (c ≡ b']'))
unfolding elements_after
begins [] = (b']', [], refl, inr refl)
begins (j ∷ js) = (b',', j ++ elements_after b']' js, refl, inl refl)

ends : (js : List Text) → (t : Text) × (elements_after b']' js ≡ t ++ b']' ∷ [])
unfolding elements_after
ends [] = ([], refl)
ends (j ∷ js) = let (t, e) = ends js in (b',' ∷ j ++ t, cc (e, append_assoc j t (b']' ∷ [])))

trimmed :
    (j : Text) (js : List Text)
    → trim_end (trim_start (b'[' ∷ j ++ elements_after b']' js))
      ≡ b'[' ∷ j ++ elements_after b']' js
unfolding trim_start
trimmed j js =
    let (t, e) = ends js in
    let whole : b'[' ∷ j ++ elements_after b']' js ≡ (b'[' ∷ j ++ t) ++ b']' ∷ [] =
      cc (e, append_assoc (b'[' ∷ j) t (b']' ∷ [])) in
    ap trim_end whole ∙ keeps_bracket (b'[' ∷ j ++ t) ∙ sym whole

untouched : (a b c : ℕ) (cs : Text) → sequence (some (a ∷ b ∷ c ∷ cs)) ≡ a ∷ b ∷ c ∷ cs
unfolding sequence
untouched a b c cs = refl

sequence-new :
    (j : Text) (js : List Text)
    → 0 < length j
    → sequence (new (some (delimited b'[' b']' (j ∷ js)))) ≡ b'[' ∷ j ++ elements_after b']' js
unfolding new delimited
sequence-new [] js h = absurd (omega (arith, h))
sequence-new (x ∷ []) js h =
    let (c, rest, f, _) = begins js in
    ap (λ t. sequence (some t)) (trimmed (x ∷ []) js) ∙ cc (f, untouched b'[' x c rest)
sequence-new (x ∷ y ∷ ys) js h =
    ap (λ t. sequence (some t)) (trimmed (x ∷ y ∷ ys) js)
    ∙ untouched b'[' x y (ys ++ elements_after b']' js)

-- What a reader gives when every read succeeds.
unfoldable pub next_all :
    {E T : Type 0} → (Text → Item E T) → ℕ → Text → List (Result (InvalidParams E) T) × Text
unfolding next
next_all next_value zero t = ([], t)
next_all next_value (suc n) t =
    let (r, t1) = next next_value t in let (rs, t2) = next_all next_value n t1 in (r ∷ rs, t2)

unfoldable pub oks : {E T : Type 0} → List T → List (Result (InvalidParams E) T)
oks [] = []
oks (v ∷ vs) = ok v ∷ oks vs

module _ {E T : Type 0} (next_value : Text → Item E T) (write : T → Text) where
  unfoldable pub writes : List T → List Text
  writes [] = []
  writes (v ∷ vs) = write v ∷ writes vs

  -- serde_json reads back a value that a comma or the end of the array follows.
  abbrev pub ReadsBack : Type 0
  ReadsBack =
      (v : T) (c : ℕ) (rest : Text)
      → (c ≡ b',') ⊎ (c ≡ b']')
      → next_value (write v ++ c ∷ rest) ≡ value v (c ∷ rest)

  -- A value after a separator.
  next_separated :
      (sep : ℕ) (v : T) (c : ℕ) (rest : Text)
      → (sep ≡ b'[') ⊎ (sep ≡ b',')
      → (c ≡ b',') ⊎ (c ≡ b']')
      → ReadsBack
      → next next_value (sep ∷ write v ++ c ∷ rest) ≡ (ok v, c ∷ rest)
  unfolding next next_inner
  next_separated sep v c rest s g law = ground (arith, s, g, law v c rest g, stays c rest g)

  next_all_elements :
      (vs : List T)
      → ReadsBack
      → next_all next_value (length vs) (elements_after b']' (writes vs)) ≡ (oks vs, b']' ∷ [])
  unfolding next_all oks writes elements_after
  next_all_elements [] law = refl
  next_all_elements (v ∷ vs) law =
      let (c, rest, f, g) = begins (writes vs) in
      ground (
        arith,
        f,
        law v c rest g,
        next_separated b',' v c rest (inr refl) g law,
        next_all_elements vs law,
      )

  write_nonempty : (v : T) → ReadsBack → Consumes next_value → 0 < length (write v)
  write_nonempty v law consumes = omega (
    arith,
    consumes (write v ++ b']' ∷ []) (b']' ∷ []) v (law v b']' [] (inr refl)),
    length-append (write v) (b']' ∷ []),
  )

  next_all_array :
      (v : T) (vs : List T)
      → ReadsBack
      → next_all next_value (suc (length vs)) (b'[' ∷ write v ++ elements_after b']' (writes vs))
        ≡ (oks (v ∷ vs), b']' ∷ [])
  unfolding next_all oks
  next_all_array v vs law =
      let (c, rest, f, g) = begins (writes vs) in
      ground (arith, f, next_separated b'[' v c rest (inl refl) g law, next_all_elements vs law)

  -- The values of an array come back in their order, one by one, with nothing between them, if
  -- serde_json reads back each value that a comma or a bracket follows and a value takes at least
  -- one character; and after them there are no more.
  pub next_all-sequence :
      (vs : List T)
      → ReadsBack
      → Consumes next_value
      → let (rs, rest) =
          next_all next_value
            (length vs)
            (sequence (new (some (delimited b'[' b']' (writes vs))))) in
        (rs ≡ oks vs) × (next next_value rest ≡ (err no_more_params, []))
  unfolding next next_inner next_all oks sequence new writes delimited trim_start trim_end
  next_all-sequence [] law consumes = (refl, refl)
  next_all-sequence (v ∷ vs) law consumes =
      let whole =
        ap (next_all next_value (suc (length vs)))
          (sequence-new (write v) (writes vs) (write_nonempty v law consumes))
        ∙ next_all_array v vs law in
      (ap (λ x. x.0) whole, ap (λ x. next next_value x.1) whole)
