-- ===== src/Server/Methods/Merge.antt =====
-- Merging two tables of methods, and aliases.
use jsonrpseex.Prelude.{
  String, Option, none, some, List, [], ◌∷◌, ◌≡◌, ◌⊎◌, refl, inl, inr, arith, String-discrete,
  Option-cases,
}
use jsonrpseex.Prelude.Map
use jsonrpseex.Prelude.Map.{Map, lookup}
use jsonrpseex.Types.Result.{ok, err, Result-cases}
use jsonrpseex.Types.Method.{RegisterMethodError, already_registered}
use jsonrpseex.Server.Methods.{method, verify_method_name, verify_all, insert_all, merge}

abbrev pub or_else {ℓ} : {A : Type ℓ} → Option A → Option A → Option A
or_else (some a) o = some a
or_else none o = o

module _ {C : Type 0} where
  insert_all_lem :
      (l : List (String × C)) (m : Map String C) (n : String)
      → method (insert_all l m) n ≡ or_else (lookup String-discrete n l) (method m n)
  unfolding insert_all lookup
  insert_all_lem [] m n = refl
  insert_all_lem ((k, c) ∷ l) m n =
      ground (arith, insert_all_lem l m n, Map.get-insert String-discrete (insert_all l m) k n c)

  verify_all-ok :
      (m : Map String C) (l : List (String × C)) (n : String)
      → verify_all m l ≡ ok tt
      → (method m n ≡ none) ⊎ (lookup String-discrete n l ≡ none)
  unfolding verify_all verify_method_name lookup
  verify_all-ok m [] n h = inr refl
  verify_all-ok m ((k, c) ∷ l) n h = elim (Option-cases (method m n)) [
    | inl e ↦ inl e
    | inr (d, e) ↦ inr (ground (arith, h, e, verify_all-ok m l n))
  ]

  Clash : Map String C → List (String × C) → RegisterMethodError → Type 0
  Clash m l x =
      (n : String) × (c : C) × (d : C) × (x ≡ already_registered n)
      × (method m n ≡ some c)
      × (lookup String-discrete n l ≡ some d)

  verify_all-err :
      (m : Map String C) (l : List (String × C)) (x : RegisterMethodError)
      → verify_all m l ≡ err x
      → Clash m l x
  unfolding verify_all verify_method_name lookup Clash
  verify_all-err m [] x h = absurd (cc h)
  verify_all-err m ((k, c) ∷ l) x h = elim (Option-cases (method m k)) [
    | inr (d, e) ↦ (k, d, c, ground (arith, h, e), e, ground arith)
    | inl e ↦
        let (n, a, b, p, q, r) = verify_all-err m l x (ground (arith, h, e)) in
        (n, a, b, p, q, ground (arith, q, r, e))
  ]

  -- Two tables without a common name are merged into one that has the methods of both; otherwise
  -- the error names a method of both, and the table is as before.
  pub merge_lem :
      (m other : Map String C)
      → let (r, m') = merge m other in
        ((r ≡ ok tt)
          × ((n : String) → (method m n ≡ none) ⊎ (method other n ≡ none))
          × ((n : String) → method m' n ≡ or_else (method other n) (method m n)))
        ⊎ ((m' ≡ m)
            × ((n : String) × (c : C) × (d : C) × (r ≡ err (already_registered n))
                × (method m n ≡ some c)
                × (method other n ≡ some d)))
  unfolding merge Clash Map.get
  merge_lem m other = elim (Result-cases (verify_all m other.entries)) [
    | inl (tt, e) ↦ inl (
      ground (arith, e),
      λ n. verify_all-ok m other.entries n e,
      λ n. ground (arith, e, insert_all_lem other.entries m n),
    )
    | inr (x, e) ↦
        let (n, a, b, p, q, r) = verify_all-err m other.entries x e in
        inr (ground (arith, e), (n, a, b, ground (arith, e, p), q, r))
  ]
