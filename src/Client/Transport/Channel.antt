-- ===== src/Client/Transport/Channel.antt =====
-- client/transport/src/ws/mod.rs: `Sender` and `Receiver`, the two ends of a connection.
pub mod Sent
use jsonrpseex.Prelude.{ℕ, Option, none, some, [], ltb, length, if◌then◌else◌}
use jsonrpseex.Types.Result.{Result, ok, err}
use jsonrpseex.Types.Error.{Json}
use jsonrpseex.Client.Backend.{ReceivedMessage, text, bytes, pong}
use jsonrpseex.Server.Websocket.{MessageEncryption}

-- What soketto receives, with the bytes of the message, or the reason of a close.
pub data Incoming (CloseReason : Type 0) : Type 0 where
  text_data binary_data : Json → Incoming CloseReason
  pong_frame : Incoming CloseReason
  closed : CloseReason → Incoming CloseReason

-- soketto's sender and receiver. `from_utf8` is `String::from_utf8`, with its error as soketto's.
pub record Soketto : Type 1 where
  pub Tx : Type 0
  pub Rx : Type 0
  pub Error : Type 0
  pub CloseReason : Type 0
  pub send_text : Tx → Json → Result Error (Unit {0}) × Tx
  pub send_ping : Tx → Json → Result Error (Unit {0}) × Tx
  pub flush : Tx → Result Error (Unit {0}) × Tx
  pub close : Tx → Result Error (Unit {0}) × Tx
  pub receive : Rx → Result Error (Incoming CloseReason) × Rx
  pub from_utf8 : Json → Result Error Json
  pub decryption_failed : Error

module _ (sk : Soketto) where
  pub data WsError : Type 0 where
    connection : sk.Error → WsError
    message_too_large : WsError
    closed : sk.CloseReason → WsError

  pub record Sender : Type 0 where
    pub inner : sk.Tx
    pub max_request_size : ℕ
    pub message_encryption : Option MessageEncryption

  abbrev pub Sent : Type 0
  Sent = Result WsError (Unit {0}) × Sender

  from_soketto : Sender → Result sk.Error (Unit {0}) × sk.Tx → Sent
  from_soketto s (ok _, tx) = (ok tt, record s { inner = tx })
  from_soketto s (err e, tx) = (err (connection e), record s { inner = tx })

  and_flush : Sender → Result sk.Error (Unit {0}) × sk.Tx → Sent
  unfolding from_soketto
  and_flush s (ok _, tx) = from_soketto s (sk.flush tx)
  and_flush s (err e, tx) = (err (connection e), record s { inner = tx })

  send_body : Sender → Option Json → Sent
  unfolding and_flush
  send_body s none = (err message_too_large, s)
  send_body s (some body) =
      if ltb s.max_request_size (length body)
      then (err message_too_large, s)
      else and_flush s (sk.send_text s.inner body)

  -- The body that is sent, if its encryption does not fail.
  unfoldable pub encrypted : Option MessageEncryption → Json → Option Json
  encrypted none body = some body
  encrypted (some encryption) body = encryption.encrypt body

  unfoldable pub send : Sender → Json → Sent
  unfolding send_body encrypted
  send s body = send_body s (encrypted s.message_encryption body)

  unfoldable pub send_ping : Sender → Sent
  unfolding and_flush
  send_ping s = and_flush s (sk.send_ping s.inner [])

  unfoldable pub close : Sender → Sent
  unfolding from_soketto
  close s = from_soketto s (sk.close s.inner)

  pub record Receiver : Type 0 where
    pub inner : sk.Rx
    pub message_encryption : Option MessageEncryption

  decrypted : Option MessageEncryption → Json → Result WsError ReceivedMessage
  decrypted none s = ok (text s)
  decrypted (some encryption) s = elim (encryption.decrypt s) [
    | some t ↦ ok (text t)
    | none ↦ err (connection sk.decryption_failed)
  ]

  as_text : Option MessageEncryption → Result sk.Error Json → Result WsError ReceivedMessage
  unfolding decrypted
  as_text encryption (ok s) = decrypted encryption s
  as_text encryption (err e) = err (connection e)

  read :
      Option MessageEncryption
      → Result sk.Error (Incoming sk.CloseReason)
      → Result WsError ReceivedMessage
  unfolding as_text
  read encryption (ok (text_data message)) = as_text encryption (sk.from_utf8 message)
  read encryption (ok (binary_data message)) = ok (bytes message)
  read encryption (ok pong_frame) = ok pong
  read encryption (ok (Incoming.closed c)) = err (closed c)
  read encryption (err e) = err (connection e)

  unfoldable pub receive : Receiver → Result WsError ReceivedMessage × Receiver
  unfolding read
  receive r =
      let (m, rx) = sk.receive r.inner in (read r.message_encryption m, record r { inner = rx })
