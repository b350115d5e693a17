-- ===== src/Client/Transport/Target.antt =====
-- client/transport/src/ws/mod.rs: the target of a URL.
pub mod Paths
use jsonrpseex.Prelude.{
  ℕ, String, Option, none, some, List, [], ◌∷◌, ◌++◌, codes, ite, String-discrete, Bool, false,
  ◌==◌, if◌then◌else◌,
}
use jsonrpseex.Prelude.Decimal.{show}
use jsonrpseex.Types.Result.{Result, ok, err, ◌>>=◌}
use jsonrpseex.Client.Transport.{Net, Text, Mode, WsHandshakeError, url}

module _ (net : Net) where
  pub record Target : Type 0 where
    pub host : Text
    pub host_header : Text
    pub mode : Mode
    pub path_and_query : Text
    pub basic_auth : Option net.HeaderValue

  mode_of : String → Result (WsHandshakeError net) Mode
  mode_of scheme = ite (String-discrete scheme "ws") (ok Mode.plain) (
      ite (String-discrete scheme "wss") (ok Mode.tls)
        (err (url (codes "`" ++ (codes scheme ++ codes "` not supported, expects 'ws' or 'wss'")))))

  host_of : Option Text → Result (WsHandshakeError net) Text
  host_of none = err (url (codes "Invalid host"))
  host_of (some host) = ok host

  with_query : Text → Option Text → Text
  with_query path none = path
  with_query path (some query) = path ++ (codes "?" ++ query)

  header_of : Option net.HeaderValue → Result (WsHandshakeError net) (Option net.HeaderValue)
  header_of none = err (url (codes "Header value `authorization basic user:pwd` invalid"))
  header_of (some val) = ok (some val)

  auth_of : Text → Option Text → Result (WsHandshakeError net) (Option net.HeaderValue)
  unfolding header_of
  auth_of username none = ok none
  auth_of username (some pwd) =
      header_of (net.header_value (codes "Basic " ++ net.base64 (username ++ (codes ":" ++ pwd))))

  host_header_of : Text → Option ℕ → Text
  unfolding show
  host_header_of host none = host
  host_header_of host (some port) = host ++ (codes ":" ++ codes (show port))

  -- `TryFrom<Url> for Target`
  unfoldable pub try_from : net.Url → Result (WsHandshakeError net) Target
  unfolding mode_of host_of with_query auth_of host_header_of
  try_from u = do
    mode ← mode_of (net.scheme u)
    host ← host_of (net.host_str u)
    basic_auth ← auth_of (net.username u) (net.password u)
    ok (record {
      host = host;
      host_header = host_header_of host (net.port u);
      mode = mode;
      path_and_query = with_query (net.path u) (net.query u);
      basic_auth = basic_auth;
    })

-- The text up to its last `/`, that included: `rfind` and `replace_range`.
unfoldable pub up_to_slash : Text → Option Text
up_to_slash [] = none
up_to_slash (c ∷ s) = elim (up_to_slash s) [
  | some d ↦ some (c ∷ d)
  | none ↦ if c == b'/' then some (c ∷ []) else none
]

unfoldable pub starts_with_slash : Text → Bool
starts_with_slash [] = false
starts_with_slash (c ∷ s) = c == b'/'

-- A relative location against a path; there is no result if the path has no `/`.
unfoldable pub resolve : Text → Text → Option Text
unfolding up_to_slash starts_with_slash
resolve path location =
    if starts_with_slash location
    then some location
    else elim (up_to_slash path) [ some d ↦ some (d ++ location) | none ↦ none ]
