-- ===== src/Client/Transport.antt =====
-- client/transport/src/ws/mod.rs: the websocket transport of the client. This file has what the
-- transport calls and its errors; the children have the target of a URL, the handshake, the loop
-- over addresses and redirections, and the two ends of a connection.
pub mod Target
pub mod Handshake
pub mod Connect
pub mod Channel
mod Tests
use jsonrpseex.Prelude.{ℕ, ◌*◌, String, Option, List, [], Bool}
use jsonrpseex.Types.Result.{Result}

-- A text, as its bytes.
abbrev pub Text : Type 0
Text = List ℕ

-- What `Url::parse` makes of a text; an error other than the missing base comes with its text.
pub data Parse (Url : Type 0) : Type 0 where
  absolute : Url → Parse Url
  relative_url_without_base : Parse Url
  invalid : Text → Parse Url

-- What a TCP connection comes to, within the timeout or at its end.
pub data Tcp (Socket IoError : Type 0) : Type 0 where
  connected : Socket → Tcp Socket IoError
  failed : IoError → Tcp Socket IoError
  timed_out : Tcp Socket IoError

-- soketto's `ServerResponse`
pub data ServerResponse : Type 0 where
  accepted : ServerResponse
  rejected : ℕ → ServerResponse
  redirect : ℕ → Text → ServerResponse

-- The code that the transport calls: url, base64, http, rustls, tokio and soketto, over the state of
-- the network.
pub record Net : Type 1 where
  pub Url : Type 0
  pub Addr : Type 0
  pub Socket : Type 0
  pub Stream : Type 0
  pub Tls : Type 0
  pub HeaderValue : Type 0
  pub IoError : Type 0
  pub HandshakeError : Type 0
  pub Conn : Type 0
  pub World : Type 0
  pub scheme : Url → String
  pub host_str : Url → Option Text
  pub path : Url → Text
  pub query : Url → Option Text
  pub port : Url → Option ℕ
  pub username : Url → Text
  pub password : Url → Option Text
  pub parse : Text → Parse Url
  pub base64 : Text → Text
  pub header_value : Text → Option HeaderValue
  -- The names of headers are in lower case.
  pub contains_key : String → List (String × HeaderValue) → Bool
  -- The error of a host that is no server name, as `Debug` shows it.
  pub server_name_error : Text → Option Text
  pub build_tls_config : Result IoError Tls
  pub socket_addrs : Url → World → Result IoError (List Addr) × World
  pub tcp_connect : Addr → World → Tcp Socket IoError × World
  pub plain : Socket → Stream
  pub tls_connect : Tls → Text → Socket → World → Result IoError Stream × World
  -- The handshake with the host header, the path and the headers.
  pub handshake :
      Text
      → Text
      → List (String × HeaderValue)
      → Stream
      → World
      → Result HandshakeError ServerResponse × World
  -- The connection over the stream, with the maximum size of a message.
  pub finish : Stream → ℕ → Conn

-- `Mode`
pub data Mode : Type 0 where
  plain tls : Mode

module _ (net : Net) where
  pub data WsHandshakeError : Type 0 where
    certificate_store : net.IoError → WsHandshakeError
    url : Text → WsHandshakeError
    io : net.IoError → WsHandshakeError
    transport : net.HandshakeError → WsHandshakeError
    rejected : ℕ → WsHandshakeError
    redirected : ℕ → Text → WsHandshakeError
    timeout : ℕ → WsHandshakeError
    resolution_failed : net.IoError → WsHandshakeError
    no_address_found : Text → WsHandshakeError

  -- `WsTransportClientBuilder`, as far as a connection reads it. A custom certificate store is a
  -- `build_tls_config` that gives it.
  pub record Builder : Type 0 where
    pub connection_timeout : ℕ
    pub headers : List (String × net.HeaderValue)
    pub max_request_size : ℕ
    pub max_response_size : ℕ
    pub max_redirections : ℕ

  -- `WsTransportClientBuilder::default`
  unfoldable pub default : Builder
  default = record {
    connection_timeout = 10;
    headers = [];
    max_request_size = 10 * 1024 * 1024;
    max_response_size = 10 * 1024 * 1024;
    max_redirections = 5;
  }
