-- ===== src/Client/Transport/Tests.antt =====
-- Runs of the websocket transport, and its theorems at small inputs.
use jsonrpseex.Prelude.{
  ◌<◌, ◌≢◌, ◌⊎◌, false, ℕ, ◌≡◌, refl, arith, none, some, List, [], ◌∷◌, codes, length,
  String-discrete, ◌==◌, if◌then◌else◌,
}
use jsonrpseex.Prelude.Decimal.{digit_char}
use jsonrpseex.Types.Result.{ok, err}
use jsonrpseex.Types.Error.{Json}
use jsonrpseex.Client.Backend.{text}
use jsonrpseex.Server.Websocket.{MessageEncryption}
use jsonrpseex.Client.Transport.{
  Net, Text, Mode, Tcp, Builder, relative_url_without_base, no_address_found,
}
use jsonrpseex.Client.Transport.Target.{Target, try_from, up_to_slash, resolve, starts_with_slash}
use jsonrpseex.Client.Transport.Target.Paths.{resolve_all}
use jsonrpseex.Client.Transport.Handshake.{connect}
use jsonrpseex.Client.Transport.Connect.{try_connect_over_tcp}
use jsonrpseex.Client.Transport.Connect.Redirects.{
  Site, response_of, Serves, Accepts, at_once, redirected_to, try_connect_over_tcp-Accepts,
}
use jsonrpseex.Client.Transport.Channel.{
  Soketto, text_data, Sender, Receiver, encrypted, send, receive,
}
use jsonrpseex.Client.Transport.Channel.Sent.{send-receive}

-- The path "/" is redirected to "b", and every other path is accepted.
abbrev site0 : Site
site0 p = if length p == 1 then some (codes "b") else none

abbrev net0 : Net
net0 = record {
  Url = Unit {0};
  Addr = Unit {0};
  Socket = Unit {0};
  Stream = Unit {0};
  Tls = Unit {0};
  HeaderValue = Text;
  IoError = Unit {0};
  HandshakeError = Unit {0};
  Conn = ℕ;
  World = Unit {0};
  scheme = λ u. "ws";
  host_str = λ u. some (codes "h");
  path = λ u. codes "/";
  query = λ u. none;
  port = λ u. some 80;
  username = λ u. [];
  password = λ u. none;
  parse = λ t. relative_url_without_base;
  base64 = λ t. t;
  header_value = λ t. some t;
  contains_key = λ key headers. false;
  server_name_error = λ h. none;
  build_tls_config = ok tt;
  socket_addrs = λ u w. (ok (tt ∷ []), w);
  tcp_connect = λ a w. (Tcp.connected tt, w);
  plain = λ s. tt;
  tls_connect = λ c h s w. (ok tt, w);
  handshake = λ h p hs s w. (ok (response_of (site0 p)), w);
  finish = λ s n. n;
}

abbrev target0 : Target net0
target0 = record {
  host = codes "h";
  host_header = codes "h:80";
  mode = Mode.plain;
  path_and_query = codes "/";
  basic_auth = none;
}

abbrev with_redirections : ℕ → Builder net0
with_redirections n = record {
  connection_timeout = 10;
  headers = [];
  max_request_size = 7;
  max_response_size = 9;
  max_redirections = n;
}

try_from_run : try_from net0 tt ≡ ok target0
unfolding try_from String-discrete digit_char
try_from_run = refl

serves0 : (n : ℕ) → Serves net0 (with_redirections n) target0 none tt tt tt site0
unfolding connect
serves0 n = record { connects = refl; serves = λ path. refl; relative = λ path location e. refl }

accepts0 : Accepts site0 1 (codes "/")
unfolding resolve up_to_slash starts_with_slash
accepts0 =
    redirected_to 0 (codes "/") (codes "b") (codes "/b") refl refl (at_once (codes "/b") refl)

try_connect_over_tcp-Accepts_example :
    (1 < 2) × (try_connect_over_tcp net0 (with_redirections 2) tt tt ≡ (ok 9, tt))
    ⊎ (2 < 1) × ((conn : ℕ) → (try_connect_over_tcp net0 (with_redirections 2) tt tt).0 ≢ ok conn)
unfolding starts_with_slash
try_connect_over_tcp-Accepts_example =
    try_connect_over_tcp-Accepts net0 (with_redirections 2) tt target0 tt tt tt tt site0 1
      (serves0 2) (λ u h. refl) try_from_run refl refl accepts0 (λ e. ground (arith, e))

-- With a limit of one, a single redirection is not followed, although the server could be reached.
one_redirection :
    try_connect_over_tcp net0 (with_redirections 1) tt tt ≡ (err (no_address_found (codes "h")), tt)
unfolding try_connect_over_tcp resolve String-discrete
one_redirection = refl

resolve_all_run : resolve_all (codes "/x?q") (codes "a/b" ∷ codes "c" ∷ []) ≡ some (codes "/a/c")
unfolding resolve_all resolve up_to_slash starts_with_slash
resolve_all_run = refl

-- A directory is taken from the query, if there is a slash in it.
slash_in_query : resolve (codes "/a?q=x/y") (codes "b") ≡ some (codes "/a?q=x/b")
unfolding resolve up_to_slash starts_with_slash
slash_in_query = refl

-- The wire is a list of texts, whose first one is received.
abbrev first_of : List Json → Json
first_of [] = []
first_of (j ∷ js) = j

abbrev soketto0 : Soketto
soketto0 = record {
  Tx = List Json;
  Rx = List Json;
  Error = Unit {0};
  CloseReason = Unit {0};
  send_text = λ tx j. (ok tt, j ∷ tx);
  send_ping = λ tx j. (ok tt, tx);
  flush = λ tx. (ok tt, tx);
  close = λ tx. (ok tt, tx);
  receive = λ rx. (ok (text_data (first_of rx)), []);
  from_utf8 = λ j. ok j;
  decryption_failed = tt;
}

abbrev encryption0 : MessageEncryption
encryption0 = record { encrypt = λ j. some j; decrypt = λ j. some j }

abbrev sender0 : Sender soketto0
sender0 = record { inner = []; max_request_size = 2; message_encryption = some encryption0 }

abbrev receiver0 : Receiver soketto0
receiver0 = record { inner = codes "ab" ∷ []; message_encryption = some encryption0 }

identity_undone :
    (e : MessageEncryption) (t u : Json)
    → some encryption0 ≡ some e
    → e.encrypt t ≡ some u
    → e.decrypt u ≡ some t
identity_undone e t u same h = ground (arith, same, h)

send-receive_example :
    (send soketto0 sender0 (codes "ab") ≡ (ok tt, record sender0 { inner = codes "ab" ∷ [] }))
    × (receive soketto0 receiver0 ≡ (ok (text (codes "ab")), record receiver0 { inner = [] }))
unfolding encrypted
send-receive_example =
    send-receive soketto0 sender0 receiver0 (codes "ab") (codes "ab") (codes "ab" ∷ [])
      (codes "ab" ∷ []) [] refl identity_undone refl (omega arith) refl refl refl refl
