-- ===== src/Client/Transport/Connect/Redirects.antt =====
-- How far redirections are followed.
use jsonrpseex.Prelude.{
  ◌⊎◌, ℕ, zero, suc, ltb, Bool-cases, ◌<◌, ◌≢◌, ◌≡◌, inl, inr, refl, arith, Option, none, some,
  List, [], ◌∷◌, Option-cases, Bool, true, false, if◌then◌else◌,
}
use jsonrpseex.Types.Result.{ok, err}
use jsonrpseex.Client.Transport.{
  Net, Text, absolute, relative_url_without_base, ServerResponse, accepted, redirect, Mode, Builder,
  no_address_found, redirected,
}
use jsonrpseex.Client.Transport.Target.{Target, try_from, resolve}
use jsonrpseex.Client.Transport.Target.Paths.{
  HasSlash, HasSlash-resolve, SlashPaths, try_from-HasSlash,
}
use jsonrpseex.Client.Transport.Handshake.{connect, try_connect, handshake_headers}
use jsonrpseex.Client.Transport.Connect.{
  Attempt, Connected, returned, next_round, try_address, addresses, rounds, try_connect_over_tcp,
}

-- A site of one server: for each path, the handshake is accepted or there is a relative location.
abbrev pub Site : Type 0
Site = Text → Option Text

-- What a client that makes at most so many handshakes gets: whether it is accepted.
unfoldable pub follow : Site → ℕ → Text → Bool
follow site zero path = false
follow site (suc n) path = elim (site path) [
  | none ↦ true
  | some location ↦ elim (resolve path location) [ none ↦ false | some p ↦ follow site n p ]
]

-- A site that accepts after so many redirections from a path.
pub data Accepts (site : Site) : ℕ → Text → Type 0 where
  at_once : (path : Text) → site path ≡ none → Accepts site 0 path
  redirected_to :
      (k : ℕ) (path location p : Text)
      → site path ≡ some location
      → resolve path location ≡ some p
      → Accepts site k p
      → Accepts site (suc k) path

follow-Accepts :
    (site : Site) (k n : ℕ) (path : Text) → Accepts site k path → follow site n path ≡ ltb k n
unfolding follow
follow-Accepts site k zero path a = ground arith
follow-Accepts site _ (suc n) _ (at_once path e) = ground (arith, e)
follow-Accepts site _ (suc n) _ (redirected_to k path location p e r a) =
    ground (arith, e, r, follow-Accepts site k n p a)

abbrev pub response_of : Option Text → ServerResponse
response_of none = accepted
response_of (some location) = redirect 302 location

module _ (net : Net) where
  -- A network with one server, which serves a site and does not change.
  pub record Serves (b : Builder net) (t : Target net) (connector : Option net.Tls)
      (addr : net.Addr) (stream : net.Stream) (w : net.World) (site : Site) : Type 0 where
    pub connects : connect net addr b.connection_timeout t.host connector w ≡ (ok stream, w)
    pub serves :
        (path : Text)
        → net.handshake t.host_header path (handshake_headers net b.headers t.basic_auth) stream w
          ≡ (ok (response_of (site path)), w)
    pub relative :
        (path location : Text)
        → site path ≡ some location
        → net.parse location ≡ relative_url_without_base

  module _ (b : Builder net) (t : Target net) (connector : Option net.Tls) (addr : net.Addr)
      (stream : net.Stream) (w : net.World) (site : Site)
      (s : Serves b t connector addr stream w site) where
    abbrev pub at_path : Text → Attempt net
    at_path path = record {
      target = record t { path_and_query = path };
      connector = connector;
      target_sockaddrs = addr ∷ [];
      err = none;
    }

    abbrev pub result_of : Bool → Connected net
    result_of true = ok (net.finish stream b.max_response_size)
    result_of false = err (no_address_found t.host)

    address_accepted :
        (path : Text)
        → site path ≡ none
        → addresses net b
            (addr ∷ [])
            (addr ∷ [])
            (record (at_path path) { target_sockaddrs = [] })
            w
          ≡ (returned (result_of true), w)
    unfolding addresses try_address
    address_accepted path h = ground (arith, s.connects, s.serves path, h)

    address_redirected :
        (path location p : Text)
        → site path ≡ some location
        → resolve path location ≡ some p
        → addresses net b
            (addr ∷ [])
            (addr ∷ [])
            (record (at_path path) { target_sockaddrs = [] })
            w
          ≡ (next_round (at_path p), w)
    unfolding addresses try_address
    address_redirected path location p h r =
        ground (arith, s.connects, s.serves path, s.relative path location, h, r)

    -- On a network with one server that answers each path with an acceptance or with a relative
    -- location, the rounds make at most as many handshakes as there are rounds: the connection is
    -- made exactly if one of them is accepted, and else the error is that no address was found.
    pub rounds-follow :
        (n : ℕ) (path : Text)
        → HasSlash path
        → rounds net b n (at_path path) w ≡ (result_of (follow site n path), w)
    unfolding rounds follow
    rounds-follow zero path h = refl
    rounds-follow (suc n) path h = elim (Option-cases (site path)) [
      | inl e ↦ ground (arith, e, address_accepted path e)
      | inr (location, e) ↦
          let (p, r, h') = HasSlash-resolve path location h in
          ground (arith, e, r, address_redirected path location p e r, rounds-follow n p h')
    ]

  -- A URL without TLS whose host has one address, and the server there answers each path with an
  -- acceptance or a relative location: the client makes at most `max_redirections` handshakes, so it
  -- follows one redirection less, and if none of them is accepted the error is that no address was
  -- found for the host.
  pub try_connect_over_tcp-follow :
      (b : Builder net) (uri : net.Url) (t : Target net) (addr : net.Addr) (stream : net.Stream)
      (w w0 : net.World) (site : Site)
      → Serves b t none addr stream w site
      → SlashPaths net
      → try_from net uri ≡ ok t
      → t.mode ≡ Mode.plain
      → net.socket_addrs uri w0 ≡ (ok (addr ∷ []), w)
      → try_connect_over_tcp net b uri w0 ≡ (
        (if follow site b.max_redirections t.path_and_query
            then ok (net.finish stream b.max_response_size)
            else err (no_address_found t.host)),
        w,
      )
  unfolding try_connect_over_tcp
  try_connect_over_tcp-follow b uri t addr stream w w0 site s slashes u m d = ground (
    arith,
    u,
    m,
    d,
    rounds-follow b t none addr stream w site s b.max_redirections t.path_and_query
        (try_from-HasSlash net uri t slashes u),
  )

  -- On a network where a URL without TLS has one address, and the server there redirects by relative
  -- locations and accepts after a number of redirections other than the limit, the client is
  -- connected if there are fewer redirections than the limit, and is not if there are more.
  pub try_connect_over_tcp-Accepts :
      (b : Builder net) (uri : net.Url) (t : Target net) (addr : net.Addr) (stream : net.Stream)
      (w w0 : net.World) (site : Site) (k : ℕ)
      → Serves b t none addr stream w site
      → SlashPaths net
      → try_from net uri ≡ ok t
      → t.mode ≡ Mode.plain
      → net.socket_addrs uri w0 ≡ (ok (addr ∷ []), w)
      → Accepts site k t.path_and_query
      → k ≢ b.max_redirections
      → (k < b.max_redirections)
          × (try_connect_over_tcp net b uri w0 ≡ (ok (net.finish stream b.max_response_size), w))
        ⊎ (b.max_redirections < k)
          × ((conn : net.Conn) → (try_connect_over_tcp net b uri w0).0 ≢ ok conn)
  try_connect_over_tcp-Accepts b uri t addr stream w w0 site k s slashes u m d a ne =
      let e = try_connect_over_tcp-follow b uri t addr stream w w0 site s slashes u m d in
      let f = follow-Accepts site k b.max_redirections t.path_and_query a in
      elim (Bool-cases (ltb k b.max_redirections)) [
        | inl l ↦ inl (ground (arith, l), ground (arith, e, f, l))
        | inr l ↦ inr (ground (arith, l, ne), λ conn h. ground (arith, e, f, l, h))
      ]

  -- An absolute location does not end the loop over the addresses of the server before it: the next
  -- of them is tried with the target, and the host header, of the new location.
  pub addresses-absolute :
      (b : Builder net) (all rest : List net.Addr) (first second : net.Addr) (a : Attempt net)
      (w w1 w2 w3 : net.World) (stream : net.Stream) (status : ℕ) (location : Text) (uri : net.Url)
      (addrs : List net.Addr) (t : Target net)
      → connect net first b.connection_timeout a.target.host a.connector w ≡ (ok stream, w1)
      → try_connect net b a.target stream w1 ≡ (err (redirected status location), w2)
      → net.parse location ≡ absolute uri
      → net.socket_addrs uri w2 ≡ (ok addrs, w3)
      → try_from net uri ≡ ok t
      → t.mode ≡ Mode.plain
      → addresses net b all (first ∷ second ∷ rest) a w
        ≡ addresses net b all
            (second ∷ rest)
            (record a { target = t; connector = none; target_sockaddrs = addrs })
            w3
  unfolding addresses try_address
  addresses-absolute b all rest first second a w w1 w2 w3 stream status location uri addrs t c h p d
        u m =
      ground (arith, c, h, p, d, u, m)
