-- ===== src/Server/Hosts.antt =====
-- server/src/middleware/http/authority.rs and host_filter.rs: the authority of a request, and the
-- filter on it.
pub mod Allowed
use jsonrpseex.Prelude.{
  ℕ, zero, suc, ◌+◌, ◌-◌, ◌*◌, Option, none, some, List, [], ◌∷◌, ◌++◌, Bool, true, false, ◌&&◌,
  ◌||◌, ◌==◌, leb, ltb, if◌then◌else◌, codes, length, ite,
}
use jsonrpseex.Prelude.Map
use jsonrpseex.Prelude.Map.{Map}
use jsonrpseex.Types.Result.{Result, ok, err, ◌>>=◌}
use jsonrpseex.Types.Error.{Json}
use jsonrpseex.Server.Runtime.{Runtime}
use jsonrpseex.Server.Http.{HttpRequest, HttpResponse, malformed_response, host_not_allowed}

pub data Port : Type 0 where
  default any : Port
  fixed : ℕ → Port

pub record Authority : Type 0 where
  pub host : Json
  pub port : Port

pub data AuthorityError : Type 0 where
  invalid_uri invalid_port missing_host : AuthorityError

-- What `http::Uri` reads: the scheme, and the authority's text with its host, if there is one.
pub record Uri : Type 0 where
  pub scheme : Option Json
  pub authority : Option (Json × Json)

-- `str::parse::<u16>`
scan : Json → ℕ → Option ℕ
scan [] acc = some acc
scan (c ∷ s) acc =
    let next = acc * 10 + (c - b'0') in
    let rest = scan s next in if leb b'0' c && leb c b'9' && ltb next 65536 then rest else none

unfoldable pub parse_u16 : Json → Option ℕ
unfolding scan
parse_u16 [] = none
parse_u16 (c ∷ []) = scan (c ∷ []) 0
parse_u16 (c ∷ d ∷ s) = if c == b'+' then scan (d ∷ s) 0 else scan (c ∷ d ∷ s) 0

drop : ℕ → Json → Json
drop zero s = s
drop (suc n) [] = []
drop (suc n) (c ∷ s) = drop n s

-- `split_once(':')`, its second part.
after_colon : Json → Option Json
after_colon [] = none
after_colon (c ∷ s) = let rest = after_colon s in if c == b':' then some s else rest

unfoldable pub port_allows : Port → Port → Bool
port_allows any _ = true
port_allows default default = true
port_allows (fixed p1) (fixed p2) = p1 == p2
port_allows default any = false
port_allows default (fixed _) = false
port_allows (fixed _) default = false
port_allows (fixed _) any = false

unfoldable pub any_port : List Port → Port → Bool
unfolding port_allows
any_port [] port = false
any_port (p ∷ ps) port = port_allows p port || any_port ps port

unfoldable pub on_handler : Option (List Port) → Port → Bool
unfolding any_port
on_handler none port = false
on_handler (some ports) port = any_port ports port

module _ (dec : Discrete Json) where
  unfoldable pub default_port : Option Json → Option ℕ
  default_port none = none
  default_port (some s) = ite (dec s (codes "http")) (some 80) (
      ite (dec s (codes "ws")) (some 80) (
        ite (dec s (codes "https")) (some 443)
          (ite (dec s (codes "wss")) (some 443) (ite (dec s (codes "ftp")) (some 21) none))))

  fixed_or_default : ℕ → Option ℕ → Port
  fixed_or_default port none = fixed port
  fixed_or_default port (some p) = if p == port then default else fixed port

  numbered : Option Json → Option ℕ → Result AuthorityError Port
  unfolding fixed_or_default default_port
  numbered scheme none = err invalid_port
  numbered scheme (some port) = ok (fixed_or_default port (default_port scheme))

  port_of : Option Json → Option Json → Result AuthorityError Port
  unfolding numbered parse_u16
  port_of scheme none = ok default
  port_of scheme (some p) = ite (dec p (codes "*")) (ok any) (numbered scheme (parse_u16 p))

  of_authority : Option Json → Option (Json × Json) → Result AuthorityError Authority
  unfolding port_of after_colon drop
  of_authority scheme none = err missing_host
  of_authority scheme (some (text, host)) = do
    port ← port_of scheme (after_colon (drop (length host) text))
    ok (record { host = host; port = port })

  of_uri : Option Uri → Result AuthorityError Authority
  unfolding of_authority
  of_uri none = err invalid_uri
  of_uri (some uri) = of_authority uri.scheme uri.authority

  -- `Authority::inner_from_str`; `parse_uri` is the `http` crate's.
  unfoldable pub inner_from_str : (Json → Option Uri) → Json → Result AuthorityError Authority
  unfolding of_uri
  inner_from_str parse_uri value = of_uri (parse_uri value)

  module _ (same : Discrete Authority) where
    agreed :
        Option (Result AuthorityError Authority)
        → Option (Result AuthorityError Authority)
        → Option Authority
    agreed (some (ok a)) (some (ok b)) = ite (same a b) (some a) none
    agreed (some (ok a)) (some (err _)) = some a
    agreed (some (ok a)) none = some a
    agreed (some (err _)) (some (ok b)) = some b
    agreed none (some (ok b)) = some b
    agreed (some (err _)) (some (err _)) = none
    agreed (some (err _)) none = none
    agreed none (some (err _)) = none
    agreed none none = none

    parsed : (Json → Option Uri) → Option Json → Option (Result AuthorityError Authority)
    unfolding inner_from_str
    parsed parse_uri none = none
    parsed parse_uri (some value) = some (inner_from_str parse_uri value)

    -- `Authority::from_http_request`, on the `Host` header and the authority of the request's URI.
    unfoldable pub from_http_request :
        (Json → Option Uri) → Option Json → Option Json → Option Authority
    unfolding agreed parsed
    from_http_request parse_uri host_header uri =
        agreed (parsed parse_uri host_header) (parsed parse_uri uri)

  unfoldable pub push_port :
      Authority → Map Json (List Port) → Option (List Port) → Map Json (List Port)
  push_port a m none = Map.insert dec m a.host (a.port ∷ [])
  push_port a m (some ports) = Map.insert dec m a.host (ports ++ a.port ∷ [])

  -- The ports of each host.
  unfoldable pub uniq_hosts : List Authority → Map Json (List Port) → Map Json (List Port)
  unfolding push_port
  uniq_hosts [] m = m
  uniq_hosts (a ∷ as_) m = uniq_hosts as_ (push_port a m (Map.get dec m a.host))

  -- `WhitelistedHosts`: `route` is the router's look-up of a host among the patterns that were added.
  unfoldable pub recognize :
      (Map Json (List Port) → Json → Option (List Port)) → List Authority → Authority → Bool
  unfolding uniq_hosts on_handler
  recognize route allow_only other =
      on_handler (route (uniq_hosts allow_only Map.empty) other.host) other.port

  module _ (rt : Runtime) {E St : Type 0}
      (inner : HttpRequest rt E → St → HttpResponse rt × St) where
    filtered : Bool → HttpRequest rt E → St → HttpResponse rt × St
    unfolding host_not_allowed
    filtered true req st = inner req st
    filtered false req st = (host_not_allowed rt, st)

    by_filter :
        (Map Json (List Port) → Json → Option (List Port))
        → Option (List Authority)
        → Authority
        → HttpRequest rt E
        → St
        → HttpResponse rt × St
    unfolding filtered recognize
    by_filter route none authority req st = inner req st
    by_filter route (some allow_only) authority req st =
        filtered (recognize route allow_only authority) req st

    -- `HostFilter::call`, given the authority of the request; `none` as the filter disables it.
    unfoldable pub host_filter_call :
        (Map Json (List Port) → Json → Option (List Port))
        → Option (List Authority)
        → Option Authority
        → HttpRequest rt E
        → St
        → HttpResponse rt × St
    unfolding by_filter malformed_response
    host_filter_call route filter none req st = (malformed_response rt, st)
    host_filter_call route filter (some authority) req st = by_filter route filter authority req st
