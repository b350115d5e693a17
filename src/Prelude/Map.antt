-- ===== src/Prelude/Map.antt =====
-- The std library's `HashMap`, as an association list without duplicates behind its laws. The
-- program never relies on the order of iteration.
use mathlib.Core.Path.{◌≡◌, refl}
use mathlib.Core.Logic.{ite}
use mathlib.Core.Option.{Option, none, some}
use mathlib.Core.List.{List, [], ◌∷◌}
use native.Mathlib.Omega.{arith}

pub record Map {ℓ} (K V : Type ℓ) : Type ℓ where
  pub entries : List (K × V)

abbrev pub empty {ℓ} : {K V : Type ℓ} → Map K V
empty = record { entries = [] }

module _ {ℓ} {K V : Type ℓ} (dec : Discrete K) where
  unfoldable pub lookup : K → List (K × V) → Option V
  lookup k [] = none
  lookup k ((j, v) ∷ l) = ite (dec j k) (some v) (lookup k l)

  unfoldable pub without : K → List (K × V) → List (K × V)
  without k [] = []
  without k ((j, v) ∷ l) = let rest = without k l in ite (dec j k) rest ((j, v) ∷ rest)

  unfoldable pub get : Map K V → K → Option V
  unfolding lookup
  get m k = lookup k m.entries

  unfoldable pub insert : Map K V → K → V → Map K V
  unfolding without
  insert m k v = record { entries = (k, v) ∷ without k m.entries }

  unfoldable pub remove : Map K V → K → Map K V
  unfolding without
  remove m k = record { entries = without k m.entries }

  lookup-without :
      (k j : K) (l : List (K × V)) → lookup j (without k l) ≡ ite (dec k j) none (lookup j l)
  unfolding lookup without
  lookup-without k j [] = ground arith
  lookup-without k j ((i, v) ∷ l) = ground (arith, lookup-without k j l)

  pub get-insert :
      (m : Map K V) (k j : K) (v : V) → get (insert m k v) j ≡ ite (dec k j) (some v) (get m j)
  unfolding get insert
  get-insert m k j v = ground (arith, lookup-without k j m.entries)

  pub get-remove : (m : Map K V) (k j : K) → get (remove m k) j ≡ ite (dec k j) none (get m j)
  unfolding get remove
  get-remove m k j = lookup-without k j m.entries

  pub get-empty : (k : K) → get empty k ≡ none
  unfolding get
  get-empty k = refl
