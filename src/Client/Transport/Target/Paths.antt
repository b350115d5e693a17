-- ===== src/Client/Transport/Target/Paths.antt =====
-- The resolution of relative locations.
use jsonrpseex.Prelude.{
  ◌≡◌, ◌⊎◌, inl, inr, refl, arith, sym, subst, append-nil, Option, none, some, Option-cases, List,
  [], ◌∷◌, ◌++◌, codes, true, Bool-cases, String-discrete,
}
use jsonrpseex.Types.Result.{ok}
use jsonrpseex.Client.Transport.{Net, Text}
use jsonrpseex.Client.Transport.Target.{Target, try_from, up_to_slash, starts_with_slash, resolve}

-- A path with a `/` in it.
abbrev pub HasSlash : Text → Type 0
HasSlash path = (d : Text) × (up_to_slash path ≡ some d)

slash_first : (path : Text) → starts_with_slash path ≡ true → HasSlash path
unfolding up_to_slash starts_with_slash
slash_first [] h = absurd (cc h)
slash_first (c ∷ s) h = elim (Option-cases (up_to_slash s)) [
  | inl e ↦ (c ∷ [], ground (arith, e, h))
  | inr (d, e) ↦ (c ∷ d, ground (arith, e))
]

HasSlash-append : (path rest : Text) → HasSlash path → HasSlash (path ++ rest)
unfolding up_to_slash starts_with_slash
HasSlash-append [] rest (d, h) = absurd (cc h)
HasSlash-append (c ∷ s) rest (d, h) = elim (Option-cases (up_to_slash s)) [
  | inr (d', e) ↦ let (d'', e') = HasSlash-append s rest (d', e) in (c ∷ d'', ground (arith, e'))
  | inl e ↦ slash_first (c ∷ (s ++ rest)) (ground (arith, e, h))
]

HasSlash-up_to_slash : (path d : Text) → up_to_slash path ≡ some d → HasSlash d
unfolding up_to_slash
HasSlash-up_to_slash [] d h = absurd (cc h)
HasSlash-up_to_slash (c ∷ s) d h = elim (Option-cases (up_to_slash s)) [
  | inl e ↦ (d, ground (arith, e, h))
  | inr (d', e) ↦ let (d'', e') = HasSlash-up_to_slash s d' e in (c ∷ d'', ground (arith, e, e', h))
]

pub HasSlash-resolve :
    (path location : Text)
    → HasSlash path
    → (p : Text) × (resolve path location ≡ some p) × HasSlash p
unfolding resolve
HasSlash-resolve path location (d, h) = elim (Bool-cases (starts_with_slash location)) [
  | inl e ↦ (location, ground (arith, e), slash_first location e)
  | inr e ↦ (
    d ++ location,
    ground (arith, e, h),
    HasSlash-append d location (HasSlash-up_to_slash path d h),
  )
]

-- A sequence of relative locations, each against the path that the one before it gave.
unfoldable pub resolve_all : Text → List Text → Option Text
resolve_all path [] = some path
resolve_all path (location ∷ locations) = elim (resolve path location) [
  | none ↦ none
  | some p ↦ resolve_all p locations
]

resolve_all-some :
    (path : Text) (locations : List Text)
    → HasSlash path
    → (p : Text) × (resolve_all path locations ≡ some p)
unfolding resolve_all
resolve_all-some path [] h = (path, refl)
resolve_all-some path (location ∷ locations) h =
    let (p, e, h') = HasSlash-resolve path location h in
    let (q, f) = resolve_all-some p locations h' in (q, ground (arith, e, f))

module _ (net : Net) where
  -- url: the path of a URL whose scheme is special begins with `/`.
  abbrev pub SlashPaths : Type 0
  SlashPaths =
      (u : net.Url)
      → (net.scheme u ≡ "ws") ⊎ (net.scheme u ≡ "wss")
      → starts_with_slash (net.path u) ≡ true

  try_from_scheme :
      (u : net.Url) (t : Target net)
      → try_from net u ≡ ok t
      → (net.scheme u ≡ "ws") ⊎ (net.scheme u ≡ "wss")
  unfolding try_from
  try_from_scheme u t h = elim (String-discrete (net.scheme u) "ws") [
    | yes e ↦ inl e
    | no n ↦ elim (String-discrete (net.scheme u) "wss") [
      | yes e ↦ inr e
      | no m ↦ absurd (ground (arith, n, m, h))
    ]
  ]

  try_from_path :
      (u : net.Url) (t : Target net)
      → try_from net u ≡ ok t
      → (rest : Text) × (t.path_and_query ≡ net.path u ++ rest)
  unfolding try_from
  try_from_path u t h = elim (Option-cases (net.query u)) [
    | inl e ↦ ([], ground (arith, e, h, append-nil (net.path u)))
    | inr (q, e) ↦ (codes "?" ++ q, ground (arith, e, h))
  ]

  pub try_from-HasSlash :
      (u : net.Url) (t : Target net)
      → SlashPaths
      → try_from net u ≡ ok t
      → HasSlash t.path_and_query
  try_from-HasSlash u t slashes h =
      let (rest, e) = try_from_path u t h in
      let s =
        HasSlash-append (net.path u) rest
          (slash_first (net.path u) (slashes u (try_from_scheme u t h))) in
      subst HasSlash (sym e) s

  -- If a target could be made of a URL, and the path of a URL with one of its two schemes begins
  -- with a slash, then any relative locations can be resolved against it, one after the other, so
  -- the error that asks for an issue is never made.
  pub try_from-resolve_all :
      (u : net.Url) (t : Target net) (locations : List Text)
      → SlashPaths
      → try_from net u ≡ ok t
      → (p : Text) × (resolve_all t.path_and_query locations ≡ some p)
  try_from-resolve_all u t locations slashes h =
      resolve_all-some t.path_and_query locations (try_from-HasSlash u t slashes h)
