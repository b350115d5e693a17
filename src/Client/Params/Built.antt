-- ===== src/Client/Params/Built.antt =====
-- What a builder builds.
use jsonrpseex.Prelude.{
  ℕ, ◌-◌, ◌≡◌, refl, ap, arith, Option, none, some, List, [], ◌∷◌, ◌++◌, true, length,
  length-append, append_assoc, append-nil, set-last, get_elem?-last,
}
use jsonrpseex.Prelude.Separated.{delimited, commas, closed}
use jsonrpseex.Types.Error.{Json}
use jsonrpseex.Client.Params.{ParamsBuilder, insert, insert_named, build, maybe_initialize}

-- The builder after the insertion of values, in order.
unfoldable pub insert_all : ParamsBuilder → List Json → ParamsBuilder
insert_all b [] = b
insert_all b (t ∷ ts) = insert_all (insert b (record { text = t; complete = true })).1 ts

unfoldable pub insert_all_named : ParamsBuilder → List (Json × Json) → ParamsBuilder
insert_all_named b [] = b
insert_all_named b ((k, t) ∷ ts) =
    insert_all_named (insert_named b k (record { text = t; complete = true })).1 ts

started :
    (ts : List Json) (c : ℕ) (cs : Json) (l r : ℕ)
    → insert_all (record { bytes = c ∷ cs; start = l; end_ = r }) ts
      ≡ record { bytes = (c ∷ cs) ++ commas ts; start = l; end_ = r }
unfolding insert_all insert commas
started [] c cs l r = ground (arith, append-nil cs)
started (t ∷ ts) c cs l r = ground (
  arith,
  started ts c ((cs ++ t) ++ b',' ∷ []) l r,
  append_assoc cs t (b',' ∷ commas ts),
  append_assoc (cs ++ t) (b',' ∷ []) (commas ts),
)

text_of : Json × Json → Json
text_of (k, t) = k ++ b':' ∷ t

unfoldable pub texts_of : List (Json × Json) → List Json
unfolding text_of
texts_of [] = []
texts_of (e ∷ es) = text_of e ∷ texts_of es

-- A named value is inserted as its key, a colon and its text.
insert_named-insert :
    (b : ParamsBuilder) (k t : Json)
    → insert_named b k (record { text = t; complete = true })
      ≡ insert b (record { text = text_of (k, t); complete = true })
unfolding insert_named insert text_of
insert_named-insert b k t =
    let i = (maybe_initialize b).bytes in
    ground (
      arith,
      append_assoc i k (b':' ∷ []),
      append_assoc i (k ++ b':' ∷ []) t,
      append_assoc k (b':' ∷ []) t,
    )

empty_lem : (l r : ℕ) → build (record { bytes = []; start = l; end_ = r }) ≡ none
unfolding build
empty_lem l r = refl

commas_cons : (t : Json) (ts : List Json) → commas (t ∷ ts) ≡ t ++ b',' ∷ commas ts
unfolding commas
commas_cons t ts = refl

build_closed :
    (l r : ℕ) (t : Json) (ts : List Json)
    → build (record { bytes = l ∷ commas (t ∷ ts); start = l; end_ = r })
      ≡ some (delimited l r (t ∷ ts))
unfolding build
build_closed l r t ts =
    let (c, p, q) = closed r t ts in
    let n : length (l ∷ commas (t ∷ ts)) - 1 ≡ length (l ∷ c) =
      omega (arith, ap length p, length-append c (b',' ∷ [])) in
    ground (arith, n, p, q l, get_elem?-last (l ∷ c) b',', set-last (l ∷ c) b',' r)

-- The parameters that some texts make between two brackets.
abbrev pub built : ℕ → ℕ → List Json → Option Json
built l r [] = none
built l r (t ∷ ts) = some (delimited l r (t ∷ ts))

-- The values that were inserted, one or more, stand between the brackets of the builder, in their
-- order, with commas between them; a builder without values gives no parameters.
pub build-insert_all :
    (l r : ℕ) (ts : List Json)
    → build (insert_all (record { bytes = []; start = l; end_ = r }) ts) ≡ built l r ts
unfolding insert_all insert
build-insert_all l r [] = empty_lem l r
build-insert_all l r (t ∷ ts) = ground (
  arith,
  started ts l (t ++ b',' ∷ []) l r,
  build_closed l r t ts,
  commas_cons t ts,
  append_assoc t (b',' ∷ []) (commas ts),
)

insert_all_named-insert_all :
    (b : ParamsBuilder) (es : List (Json × Json))
    → insert_all_named b es ≡ insert_all b (texts_of es)
unfolding insert_all_named insert_all texts_of
insert_all_named-insert_all b [] = refl
insert_all_named-insert_all b ((k, t) ∷ es) = cc (
  insert_named-insert b k t,
  insert_all_named-insert_all (insert b (record { text = text_of (k, t); complete = true })).1 es,
)

-- Named values that were inserted, one or more, stand between the brackets of the builder, in their
-- order, each as its key, a colon and its text, with commas between them.
pub build-insert_all_named :
    (l r : ℕ) (es : List (Json × Json))
    → build (insert_all_named (record { bytes = []; start = l; end_ = r }) es)
      ≡ built l r (texts_of es)
build-insert_all_named l r es = cc (
  insert_all_named-insert_all (record { bytes = []; start = l; end_ = r }) es,
  build-insert_all l r (texts_of es),
)
