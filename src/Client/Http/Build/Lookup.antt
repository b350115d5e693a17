-- ===== src/Client/Http/Build/Lookup.antt =====
-- What the map of headers has under a name.
use jsonrpseex.Prelude.{
  codes, ◌++◌, ◌≡◌, ◌≢◌, refl, sym, ◌∙◌, ap, String, Option, none, some, List, [], ◌∷◌,
  String-discrete, ite, if_pos, if_neg, Bool, true, false,
}
use jsonrpseex.Client.Http.Build.{Urls, Builder, insert_all, cached_headers}

abbrev pub or_else : {A : Type 0} → Option A → Option A → Option A
or_else (some a) b = some a
or_else none b = b

abbrev pub is_some : {A : Type 0} → Option A → Bool
is_some (some a) = true
is_some none = false

-- The laws of http's map of headers.
pub record HeaderLaws (us : Urls) : Type 0 where
  pub get : String → us.Headers → Option us.HeaderValue
  pub get_nothing : (key : String) → get key us.no_headers ≡ none
  pub get_insert :
      (key : String) (value : us.HeaderValue) (headers : us.Headers)
      → get key (us.insert key value headers) ≡ some value
  pub get_insert_other :
      (key other : String) (value : us.HeaderValue) (headers : us.Headers)
      → key ≢ other
      → get key (us.insert other value headers) ≡ get key headers
  pub contains :
      (key : String) (headers : us.Headers)
      → us.contains_key key headers ≡ is_some (get key headers)

-- A value that is there for one name.
abbrev pub for_name : {A : Type 0} → String → String → Option A → Option A
for_name key name value = ite (String-discrete key name) value none

pub or_else_assoc :
    {A : Type 0} (a b c : Option A) → or_else (or_else a b) c ≡ or_else a (or_else b c)
or_else_assoc none b c = refl
or_else_assoc (some a) b c = refl

pub or_else-none : {A : Type 0} (a : Option A) → or_else a none ≡ a
or_else-none none = refl
or_else-none (some a) = refl

-- A value that is taken only if there is none yet, at the same name or at another.
for_name_same :
    {A : Type 0} (key name : String) (a v : Option A)
    → (key ≡ name → a ≡ v)
    → (key ≢ name → a ≡ none)
    → a ≡ for_name key name v
for_name_same key name a v same other = elim (String-discrete key name) [
  | yes e ↦ same e ∙ sym (if_pos (String-discrete key name) e v none)
  | no n ↦ other n ∙ sym (if_neg (String-discrete key name) n v none)
]

module _ (us : Urls) (E : Type 0) (laws : HeaderLaws us) where
  -- The value that the loop over the headers of the caller leaves under a name.
  unfoldable pub named : String → List (Option String × us.HeaderValue) → Option us.HeaderValue
  named key [] = none
  named key ((some k, value) ∷ rest) = or_else (named key rest) (for_name key k (some value))
  named key ((none, value) ∷ rest) = named key rest

  -- The value that a list of headers gives to a name: the last one.
  unfoldable pub given : String → List (String × us.HeaderValue) → Option us.HeaderValue
  given key [] = none
  given key ((k, value) ∷ rest) = or_else (given key rest) (for_name key k (some value))

  -- The map of headers that has one value under each of its names.
  abbrev pub single : List (String × us.HeaderValue) → List (Option String × us.HeaderValue)
  single [] = []
  single ((k, value) ∷ rest) = (some k, value) ∷ single rest

  pub named-single :
      (key : String) (l : List (String × us.HeaderValue)) → named key (single l) ≡ given key l
  unfolding named given
  named-single key [] = refl
  named-single key ((k, value) ∷ rest) =
      ap (λ x. or_else x (for_name key k (some value))) (named-single key rest)

  -- The authorization that a URL asks for.
  unfoldable pub basic : us.Url → Option us.HeaderValue
  basic u = elim (us.password u) [
    | none ↦ none
    | some pwd ↦ us.header_value (codes "Basic " ++ us.base64 (us.username u ++ (codes ":" ++ pwd)))
  ]

  abbrev pub json : String → String → Option us.HeaderValue
  json key name = for_name key name (some (us.from_static "application/json"))

  pub get-insert_eq :
      (key k : String) (value : us.HeaderValue) (headers : us.Headers)
      → laws.get key (us.insert k value headers)
        ≡ or_else (for_name key k (some value)) (laws.get key headers)
  get-insert_eq key k value headers = elim (String-discrete key k) [
    | yes e ↦
        ap (λ x. laws.get x (us.insert k value headers)) e
        ∙ laws.get_insert k value headers
        ∙ sym (
            ap (λ x. or_else x (laws.get key headers))
              (if_pos (String-discrete key k) e (some value) none))
    | no n ↦
        laws.get_insert_other key k value headers n
        ∙ sym (
            ap (λ x. or_else x (laws.get key headers))
              (if_neg (String-discrete key k) n (some value) none))
  ]

  get-insert_all :
      (key : String) (l : List (Option String × us.HeaderValue)) (headers : us.Headers)
      → laws.get key (insert_all us E l headers) ≡ or_else (named key l) (laws.get key headers)
  unfolding insert_all named
  get-insert_all key [] headers = refl
  get-insert_all key ((none, value) ∷ rest) headers = get-insert_all key rest headers
  get-insert_all key ((some k, value) ∷ rest) headers =
      get-insert_all key rest (us.insert k value headers)
      ∙ ap (or_else (named key rest)) (get-insert_eq key k value headers)
      ∙ sym (or_else_assoc (named key rest) (for_name key k (some value)) (laws.get key headers))

  pub get-cached_headers :
      (key : String) (b : Builder us E)
      → laws.get key (cached_headers us E b)
        ≡ or_else
            (named key (us.into_iter b.headers))
            (or_else (json key "accept") (json key "content-type"))
  unfolding cached_headers
  get-cached_headers key b =
      get-insert_all key (us.into_iter b.headers) _
      ∙ ap (or_else (named key (us.into_iter b.headers))) (
          get-insert_eq key "accept" (us.from_static "application/json") _
          ∙ ap (or_else (json key "accept")) (
              get-insert_eq key "content-type" (us.from_static "application/json") us.no_headers
              ∙ ap (or_else (json key "content-type")) (laws.get_nothing key)
              ∙ or_else-none (json key "content-type")))

  pub for_name-none : (key name : String) → for_name {A = us.HeaderValue} key name none ≡ none
  for_name-none key name = sym (for_name_same key name none none (λ e. refl) (λ n. refl))
