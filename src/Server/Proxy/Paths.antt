-- ===== src/Server/Proxy/Paths.antt =====
-- Which pairs make a table of paths.
use jsonrpseex.Prelude.{
  ◌≡◌, inl, inr, refl, arith, none, some, Option, Option-cases, List, [], ◌∷◌, true, Bool-cases,
}
use jsonrpseex.Prelude.Map
use jsonrpseex.Prelude.Map.{Map, lookup}
use jsonrpseex.Types.Result.{ok, err}
use jsonrpseex.Types.Error.{Json}
use jsonrpseex.Server.Proxy.{duplicated_path, starts_with_slash, insert_all, new}

abbrev no_paths : Map Json Json
no_paths = Map.empty

module _ (dec : Discrete Json) where
  or_else : Option Json → Option Json → Option Json
  or_else none b = b
  or_else (some a) b = some a

  -- The steps of a loop that ends well.
  step :
      (p method : Json) (pairs : List (Json × Json)) (m m' : Map Json Json)
      → insert_all dec ((p, method) ∷ pairs) m ≡ ok m'
      → (Map.get dec m p ≡ none) × (insert_all dec pairs (Map.insert dec m p method) ≡ ok m')
  unfolding insert_all
  step p method pairs m m' e = elim (Bool-cases (starts_with_slash p)) [
    | inr f ↦ absurd (ground (arith, e, f))
    | inl t ↦ elim (Option-cases (Map.get dec m p)) [
      | inl n ↦ (n, ground (arith, e, t, n))
      | inr (old, n) ↦ absurd (ground (arith, e, t, n))
    ]
  ]

  fresh :
      (pairs : List (Json × Json)) (m m' : Map Json Json) (path old : Json)
      → insert_all dec pairs m ≡ ok m'
      → Map.get dec m path ≡ some old
      → lookup dec path pairs ≡ none
  unfolding lookup
  fresh [] m m' path old e g = refl
  fresh ((p, method) ∷ pairs) m m' path old e g =
      let (n, f) = step p method pairs m m' e in
      elim (dec p path) [
        | yes q ↦ absurd (ground (arith, n, g, q))
        | no q ↦ ground (
          arith,
          q,
          fresh pairs (Map.insert dec m p method) m' path old f
              (ground (arith, q, g, Map.get-insert dec m p path method)),
        )
      ]

  insert_all_ok :
      (pairs : List (Json × Json)) (m m' : Map Json Json) (path : Json)
      → insert_all dec pairs m ≡ ok m'
      → Map.get dec m' path ≡ or_else (lookup dec path pairs) (Map.get dec m path)
  unfolding or_else lookup insert_all
  insert_all_ok [] m m' path e = ground (arith, e)
  insert_all_ok ((p, method) ∷ pairs) m m' path e =
      let (n, f) = step p method pairs m m' e in
      elim (dec p path) [
        | yes q ↦ ground (
          arith,
          q,
          Map.get-insert dec m p path method,
          fresh pairs (Map.insert dec m p method) m' path method f
              (ground (arith, q, Map.get-insert dec m p path method)),
          insert_all_ok pairs (Map.insert dec m p method) m' path f,
        )
        | no q ↦ ground (
          arith,
          q,
          Map.get-insert dec m p path method,
          insert_all_ok pairs (Map.insert dec m p method) m' path f,
        )
      ]

  nothing : (path : Json) → Map.get dec no_paths path ≡ none
  nothing path = Map.get-empty dec path

  -- A table that is made of pairs of paths and methods gives each path the method of its pair, and
  -- nothing to the other paths.
  pub new-lookup :
      (pairs : List (Json × Json)) (m : Map Json Json) (path : Json)
      → new dec pairs ≡ ok m
      → Map.get dec m path ≡ lookup dec path pairs
  unfolding new or_else
  new-lookup pairs m path e = ground (arith, insert_all_ok pairs no_paths m path e, nothing path)

  -- Two pairs with one path are refused with the method of the first one as the duplicated path.
  pub new_duplicate :
      (path a b : Json) (pairs : List (Json × Json))
      → starts_with_slash path ≡ true
      → new dec ((path, a) ∷ (path, b) ∷ pairs) ≡ err (duplicated_path a)
  unfolding new insert_all
  new_duplicate path a b pairs t =
      ground (arith, t, nothing path, Map.get-insert dec no_paths path path a)
