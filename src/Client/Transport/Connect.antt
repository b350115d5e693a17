-- ===== src/Client/Transport/Connect.antt =====
-- client/transport/src/ws/mod.rs: `try_connect_over_tcp`, the loop over addresses and redirections.
pub mod Redirects
use jsonrpseex.Prelude.{ℕ, zero, suc, Option, none, some, List, [], ◌∷◌, ◌++◌, codes, if◌then◌else◌}
use jsonrpseex.Types.Result.{Result, ok, err}
use jsonrpseex.Client.Transport.{
  Net, Text, Parse, absolute, relative_url_without_base, invalid, Mode, plain, tls, Builder,
  WsHandshakeError, url, io, certificate_store, redirected, resolution_failed, no_address_found,
}
use jsonrpseex.Client.Transport.Target.{Target, try_from, resolve}
use jsonrpseex.Client.Transport.Handshake.{connect, try_connect}

module _ (net : Net) where
  -- The local variables of the loops.
  pub record Attempt : Type 0 where
    pub target : Target net
    pub connector : Option net.Tls
    pub target_sockaddrs : List net.Addr
    pub err : Option (WsHandshakeError net)

  abbrev pub Connected : Type 0
  Connected = Result (WsHandshakeError net) net.Conn

  -- What an address came to: the function returns, the next address is tried, or the next round
  -- begins.
  pub data Flow : Type 0 where
    returned : Connected → Flow
    next_address : Attempt → Flow
    next_round : Attempt → Flow

  built : Result net.IoError net.Tls → Result (WsHandshakeError net) (Option net.Tls)
  built (ok connector) = ok (some connector)
  built (err e) = err (certificate_store e)

  -- `tls_connector`, and the connector after a redirection.
  unfoldable pub tls_connector :
      Mode → Option net.Tls → Result (WsHandshakeError net) (Option net.Tls)
  unfolding built
  tls_connector plain connector = ok none
  tls_connector tls none = built net.build_tls_config
  tls_connector tls (some connector) = ok (some connector)

  with_connector : Attempt → Result (WsHandshakeError net) (Option net.Tls) → Flow
  with_connector a (ok connector) = next_address (record a { connector = connector })
  with_connector a (err e) = returned (err e)

  with_target : Attempt → Result (WsHandshakeError net) (Target net) → Flow
  unfolding with_connector tls_connector
  with_target a (ok target) =
      with_connector (record a { target = target }) (tls_connector target.mode a.connector)
  with_target a (err e) = returned (err e)

  to_absolute :
      Attempt → net.Url → Result net.IoError (List net.Addr) × net.World → Flow × net.World
  unfolding with_target try_from
  to_absolute a uri (ok addrs, w) =
      (with_target (record a { target_sockaddrs = addrs }) (try_from net uri), w)
  to_absolute a uri (err e, w) = (returned (err (io e)), w)

  to_relative : List net.Addr → Attempt → Text → Option Text → Flow
  to_relative sockaddrs a location (some path) = next_round (record a {
    target = record a.target { path_and_query = path };
    target_sockaddrs = sockaddrs;
  })
  to_relative sockaddrs a location none = next_address (record a {
    err = some (
        url (
          codes "path_and_query: "
          ++ (location ++ codes "; this is a bug it must contain `/` please open issue")));
  })

  redirect_to : List net.Addr → Attempt → Text → Parse net.Url → net.World → Flow × net.World
  unfolding to_absolute to_relative
  redirect_to sockaddrs a location (absolute uri) w = to_absolute a uri (net.socket_addrs uri w)
  redirect_to sockaddrs a location relative_url_without_base w =
      (to_relative sockaddrs a location (resolve a.target.path_and_query location), w)
  redirect_to sockaddrs a location (invalid e) w =
      (next_address (record a { err = some (url e) }), w)

  after_try : List net.Addr → Attempt → Connected × net.World → Flow × net.World
  unfolding redirect_to
  after_try sockaddrs a (ok conn, w) = (returned (ok conn), w)
  after_try sockaddrs a (err (redirected status_code location), w) =
      redirect_to sockaddrs a location (net.parse location) w
  after_try sockaddrs a (err e, w) = (next_address (record a { err = some e }), w)

  after_connect :
      Builder net
      → List net.Addr
      → Attempt
      → Result (WsHandshakeError net) net.Stream × net.World
      → Flow × net.World
  unfolding after_try try_connect
  after_connect b sockaddrs a (ok tcp_stream, w) =
      after_try sockaddrs a (try_connect net b a.target tcp_stream w)
  after_connect b sockaddrs a (err e, w) = (next_address (record a { err = some e }), w)

  -- One round of the loop over the addresses.
  unfoldable pub try_address :
      Builder net → List net.Addr → net.Addr → Attempt → net.World → Flow × net.World
  unfolding after_connect connect
  try_address b sockaddrs sockaddr a w =
      after_connect b sockaddrs a
        (connect net sockaddr b.connection_timeout a.target.host a.connector w)

  after_address : (Attempt → net.World → Flow × net.World) → Flow × net.World → Flow × net.World
  after_address rest (returned r, w) = (returned r, w)
  after_address rest (next_address a, w) = rest a w
  after_address rest (next_round a, w) = (next_round a, w)

  unfoldable pub addresses :
      Builder net → List net.Addr → List net.Addr → Attempt → net.World → Flow × net.World
  unfolding after_address try_address
  addresses b sockaddrs [] a w = (next_round a, w)
  addresses b sockaddrs (sockaddr ∷ rest) a w =
      after_address (λ a' w'. addresses b sockaddrs rest a' w')
        (try_address b sockaddrs sockaddr a w)

  failure : Attempt → WsHandshakeError net
  failure a = elim a.err [ none ↦ no_address_found a.target.host | some e ↦ e ]

  after_round :
      (Attempt → net.World → Connected × net.World) → Flow × net.World → Connected × net.World
  after_round rest (returned r, w) = (r, w)
  after_round rest (next_address a, w) = rest a w
  after_round rest (next_round a, w) = rest a w

  -- `for _ in 0..self.max_redirections`
  unfoldable pub rounds : Builder net → ℕ → Attempt → net.World → Connected × net.World
  unfolding after_round addresses failure
  rounds b zero a w = (err (failure a), w)
  rounds b (suc n) a w =
      after_round (λ a' w'. rounds b n a' w')
        (addresses b a.target_sockaddrs a.target_sockaddrs (record a { target_sockaddrs = [] }) w)

  with_addresses :
      Builder net
      → Target net
      → Option net.Tls
      → Result net.IoError (List net.Addr) × net.World
      → Connected × net.World
  unfolding rounds
  with_addresses b target connector (ok addrs, w) =
      rounds b b.max_redirections
        (record { target = target; connector = connector; target_sockaddrs = addrs; err = none }) w
  with_addresses b target connector (err e, w) = (err (resolution_failed e), w)

  first_connector :
      Builder net
      → net.Url
      → Target net
      → Result (WsHandshakeError net) (Option net.Tls)
      → net.World
      → Connected × net.World
  unfolding with_addresses
  first_connector b uri target (ok connector) w =
      with_addresses b target connector (net.socket_addrs uri w)
  first_connector b uri target (err e) w = (err e, w)

  first_target :
      Builder net
      → net.Url
      → Result (WsHandshakeError net) (Target net)
      → net.World
      → Connected × net.World
  unfolding first_connector tls_connector
  first_target b uri (ok target) w = first_connector b uri target (tls_connector target.mode none) w
  first_target b uri (err e) w = (err e, w)

  -- `try_connect_over_tcp`, which `build` calls.
  unfoldable pub try_connect_over_tcp : Builder net → net.Url → net.World → Connected × net.World
  unfolding first_target try_from
  try_connect_over_tcp b uri w = first_target b uri (try_from net uri) w
