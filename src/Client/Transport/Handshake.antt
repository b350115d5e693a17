-- ===== src/Client/Transport/Handshake.antt =====
-- client/transport/src/ws/mod.rs: `try_connect`, the handshake over a stream, and `connect`, which
-- opens the stream.
use jsonrpseex.Prelude.{
  ℕ, String, Option, none, some, List, [], ◌∷◌, ◌++◌, if◌then◌else◌, not, codes,
}
use jsonrpseex.Types.Result.{Result, ok, err}
use jsonrpseex.Client.Transport.{
  Net, Text, Tcp, connected, failed, timed_out, ServerResponse, accepted, redirect, Builder,
  WsHandshakeError, url, io, transport, redirected, timeout,
}
use jsonrpseex.Client.Transport.Target.{Target}

module _ (net : Net) where
  -- The headers of the handshake: the basic authorization of the URL, unless there is one already.
  unfoldable pub handshake_headers :
      List (String × net.HeaderValue) → Option net.HeaderValue → List (String × net.HeaderValue)
  handshake_headers headers none = headers
  handshake_headers headers (some basic_auth) =
      if not (net.contains_key "authorization" headers)
      then headers ++ ("authorization", basic_auth) ∷ []
      else headers

  after_handshake :
      Builder net
      → net.Stream
      → Result net.HandshakeError ServerResponse × net.World
      → Result (WsHandshakeError net) net.Conn × net.World
  after_handshake b stream (ok accepted, w) = (ok (net.finish stream b.max_response_size), w)
  after_handshake b stream (ok (ServerResponse.rejected status_code), w) =
      (err (WsHandshakeError.rejected status_code), w)
  after_handshake b stream (ok (redirect status_code location), w) =
      (err (redirected status_code location), w)
  after_handshake b stream (err e, w) = (err (transport e), w)

  -- The two ends of the connection are a value of `Conn`; the sender also has `max_request_size`.
  unfoldable pub try_connect :
      Builder net
      → Target net
      → net.Stream
      → net.World
      → Result (WsHandshakeError net) net.Conn × net.World
  unfolding handshake_headers after_handshake
  try_connect b target stream w = after_handshake b stream (
      net.handshake target.host_header target.path_and_query
        (handshake_headers b.headers target.basic_auth) stream w)

  after_tls :
      Result net.IoError net.Stream × net.World
      → Result (WsHandshakeError net) net.Stream × net.World
  after_tls (ok stream, w) = (ok stream, w)
  after_tls (err e, w) = (err (io e), w)

  over_tls :
      net.Tls
      → Text
      → Option Text
      → net.Socket
      → net.World
      → Result (WsHandshakeError net) net.Stream × net.World
  unfolding after_tls
  over_tls connector host (some e) socket w =
      (err (url (codes "Invalid host: " ++ (host ++ (codes " " ++ e)))), w)
  over_tls connector host none socket w = after_tls (net.tls_connect connector host socket w)

  over_tcp :
      ℕ
      → Text
      → Option net.Tls
      → Tcp net.Socket net.IoError × net.World
      → Result (WsHandshakeError net) net.Stream × net.World
  unfolding over_tls
  over_tcp timeout_dur host tls_connector (failed e, w) = (err (io e), w)
  over_tcp timeout_dur host tls_connector (timed_out, w) = (err (timeout timeout_dur), w)
  over_tcp timeout_dur host none (connected socket, w) = (ok (net.plain socket), w)
  over_tcp timeout_dur host (some connector) (connected socket, w) =
      over_tls connector host (net.server_name_error host) socket w

  unfoldable pub connect :
      net.Addr
      → ℕ
      → Text
      → Option net.Tls
      → net.World
      → Result (WsHandshakeError net) net.Stream × net.World
  unfolding over_tcp
  connect sockaddr timeout_dur host tls_connector w =
      over_tcp timeout_dur host tls_connector (net.tcp_connect sockaddr w)
