-- ===== src/Types/Response/Sound.antt =====
-- Which keys an object has that the visitor accepts as a response.
use jsonrpseex.Prelude.{
  ℕ, suc, ◌+◌, ◌≤◌, String, List, [], ◌∷◌, Option, none, some, ◌≡◌, arith, inl, inr,
}
use jsonrpseex.Types.Result.{ok, Result-cases}
use jsonrpseex.Types.Error.{Json}
use jsonrpseex.Types.Response.{Extended}
use jsonrpseex.Types.Response.Visitor.{
  Values, Seen, nothing_seen, Field, field_of, visit_field, visit_fields, assemble, finish,
  visit_map,
}

-- How often the keys of an object are read as one of the fields.
abbrev pub Counts : Type 0
Counts = ℕ × ℕ × ℕ × ℕ

abbrev pub tally : Field → Counts → Counts
tally Field.jsonrpc (v, r, e, i) = (suc v, r, e, i)
tally Field.result (v, r, e, i) = (v, suc r, e, i)
tally Field.error (v, r, e, i) = (v, r, suc e, i)
tally Field.id (v, r, e, i) = (v, r, e, suc i)
tally Field.ignore c = c

unfoldable pub counts : List (String × Json) → Counts
unfolding field_of
counts [] = (0, 0, 0, 0)
counts ((k, j) ∷ rest) = tally (field_of k) (counts rest)

abbrev size : {A : Type 0} → Option A → ℕ
size none = 0
size (some _) = 1

abbrev plus : {T : Type 0} → Seen T → Counts → Counts
plus s (v, r, e, i) = (size s.jsonrpc + v, size s.result + r, size s.error + e, size s.id + i)

abbrev sizes : {T : Type 0} → Seen T → Counts
sizes s = (size s.jsonrpc, size s.result, size s.error, size s.id)

abbrev pub IsResponseCounts : Counts → Type 0
IsResponseCounts (w, r, e, i) = (i ≡ 1) × (r + e ≡ 1) × (w ≤ 1)

module _ {X T : Type 0} (new_extensions : X) (v : Values T) where
  visit_field_lem :
      (f : Field) (j : Json) (s s' : Seen T) (c : Counts)
      → visit_field new_extensions v f j s ≡ ok s'
      → plus s' c ≡ plus s (tally f c)
  unfolding visit_field
  visit_field_lem Field.jsonrpc j s s' c h = ground arith
  visit_field_lem Field.result j s s' c h = ground arith
  visit_field_lem Field.error j s s' c h = ground arith
  visit_field_lem Field.id j s s' c h = ground arith
  visit_field_lem Field.ignore j s s' c h = ground arith

  visit_fields_lem :
      (fs : List (String × Json)) (s s' : Seen T)
      → visit_fields new_extensions v fs s ≡ ok s'
      → sizes s' ≡ plus s (counts fs)
  unfolding visit_fields counts
  visit_fields_lem [] s s' h = ground arith
  visit_fields_lem ((k, j) ∷ fs) s s' h =
      elim (Result-cases (visit_field new_extensions v (field_of k) j s)) [
        | inl (m, e) ↦ ground (
          arith,
          visit_fields_lem fs m s' (ground (arith, h, e)),
          visit_field_lem (field_of k) j s m (counts fs) e,
        )
        | inr (x, e) ↦ absurd (ground (arith, h, e))
      ]

  finish_lem :
      (s : Seen T) (rp : Extended X T)
      → finish new_extensions v s.id s ≡ ok rp
      → (size s.id ≡ 1) × (size s.result + size s.error ≡ 1) × (size s.jsonrpc ≤ 1)
  unfolding finish assemble
  finish_lem s rp h = ground arith

  counted :
      (fs : List (String × Json)) (s : Seen T)
      → sizes s ≡ plus (nothing_seen {T = T}) (counts fs)
      → (size s.id ≡ 1) × (size s.result + size s.error ≡ 1) × (size s.jsonrpc ≤ 1)
      → IsResponseCounts (counts fs)
  counted fs s e h = ground (arith, e, h)

  -- An object that is read as a response has the id once, exactly one of result and error, once,
  -- and the version at most once.
  pub visit_map-counts :
      (fs : List (String × Json)) (rp : Extended X T)
      → visit_map new_extensions v fs ≡ ok rp
      → IsResponseCounts (counts fs)
  unfolding visit_map finish
  visit_map-counts fs rp h = elim (Result-cases (visit_fields new_extensions v fs nothing_seen)) [
    | inl (s, e) ↦
        counted fs s (visit_fields_lem fs nothing_seen s e) (finish_lem s rp (ground (arith, h, e)))
    | inr (x, e) ↦ absurd (ground (arith, h, e))
  ]
