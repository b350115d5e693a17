-- ===== src/Macros.antt =====
-- proc-macros/src/rpc_macro.rs: the names that the `rpc` macro makes. The children have what the
-- macro accepts, and the registration of a trait's methods that it generates.
pub mod Description
pub mod Server
mod Tests
use Prim.Native.Char.{Char, code}
use Prim.Native.String.{◌++◌ as text_append}
use jsonrpseex.Prelude.{String, Option, none, some, ◌==◌, if◌then◌else◌}

-- `str::strip_prefix`
unfoldable pub strip_prefix : String → String → Option String
strip_prefix String.[] s = some s
strip_prefix (String.◌∷◌ c p) String.[] = none
strip_prefix (String.◌∷◌ c p) (String.◌∷◌ d s) = if code c == code d then strip_prefix p s else none

unfoldable pub build_unsubscribe_method : String → Option String
unfolding strip_prefix
build_unsubscribe_method method = elim (strip_prefix "subscribe" method) [
  | none ↦ none
  | some s ↦ some (text_append "unsubscribe" s)
]

separator : Option String → String
separator none = "_"
separator (some sep) = sep

-- The namespace, and its separator.
unfoldable pub rpc_identifier : Option String → Option String → String → String
unfolding separator
rpc_identifier none namespace_separator method = method
rpc_identifier (some ns) namespace_separator method =
    text_append ns (text_append (separator namespace_separator) method)
