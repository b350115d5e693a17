-- ===== src/Prelude/Separated.antt =====
-- Texts between two brackets with commas between them, and how a program writes them: each with a
-- comma after it, the last of which the closing bracket replaces.
use Prim.Native.Nat.{ℕ}
use mathlib.Core.Path.{◌≡◌, refl}
use mathlib.Core.List.{List, [], ◌∷◌, ◌++◌}
use jsonrpseex.Prelude.Lists.{append_assoc}

unfoldable pub elements_after : ℕ → List (List ℕ) → List ℕ
elements_after right [] = right ∷ []
elements_after right (j ∷ js) = b',' ∷ j ++ elements_after right js

unfoldable pub delimited : ℕ → ℕ → List (List ℕ) → List ℕ
unfolding elements_after
delimited left right [] = left ∷ right ∷ []
delimited left right (j ∷ js) = left ∷ j ++ elements_after right js

unfoldable pub commas : List (List ℕ) → List ℕ
commas [] = []
commas (j ∷ js) = j ++ b',' ∷ commas js

pub closed :
    (right : ℕ) (j : List ℕ) (js : List (List ℕ))
    → (c : List ℕ) × (commas (j ∷ js) ≡ c ++ b',' ∷ [])
      × ((left : ℕ) → delimited left right (j ∷ js) ≡ left ∷ c ++ right ∷ [])
unfolding commas delimited elements_after
closed right j [] = (j, refl, λ left. refl)
closed right j (k ∷ js) =
    let (c, e, f) = closed right k js in
    (
      j ++ b',' ∷ c,
      cc (e, append_assoc j (b',' ∷ c) (b',' ∷ [])),
      λ left. cc (f b',', append_assoc j (b',' ∷ c) (right ∷ [])),
    )
