-- ===== src/Server/Websocket.antt =====
-- server/src/transport/ws.rs: the websocket transport of a connection. This file has the encryption
-- and `send_message`; the children have the task of one message, the loop that receives, and the
-- task that sends.
pub mod Message
pub mod Session
pub mod Outgoing
mod Tests
use jsonrpseex.Prelude.{ℕ, Option, none, some}
use jsonrpseex.Prelude.Int.{ℤ, neg}
use jsonrpseex.Types.Result.{Result, ok, err}
use jsonrpseex.Types.Ids.{RequestId}
use jsonrpseex.Types.Error
use jsonrpseex.Types.Error.{ErrorObject, Json}
use jsonrpseex.Server.Runtime.{Runtime}
use jsonrpseex.Server.Response.{error_json}

-- `MessageEncryption`, which the application gives.
pub record MessageEncryption : Type 0 where
  pub encrypt : Json → Option Json
  pub decrypt : Json → Option Json

pub data MessageCryptoErrorPolicy : Type 0 where
  send_error close_connection skip_message : MessageCryptoErrorPolicy

-- soketto's error, as far as the server looks at it.
pub data SokettoError : Type 0 where
  closed other : SokettoError
  message_too_large : ℕ → ℕ → SokettoError

-- soketto's sender.
pub record Socket : Type 1 where
  pub Tx : Type 0
  pub send_text : Tx → Json → Result SokettoError (Unit {0}) × Tx
  pub send_ping : Tx → Result SokettoError (Unit {0}) × Tx
  pub flush : Tx → Result SokettoError (Unit {0}) × Tx
  pub close : Tx → Tx

abbrev pub encryption_error_code : ℤ
encryption_error_code = neg 32012

abbrev pub decryption_error_code : ℤ
decryption_error_code = neg 32013

unfoldable pub encryption_error : ErrorObject
unfolding Error.new
encryption_error = Error.new encryption_error_code "Message encryption failed" none

unfoldable pub decryption_error : ErrorObject
unfolding Error.new
decryption_error = Error.new decryption_error_code "Message decryption failed" none

module _ (rt : Runtime) (sk : Socket) where
  after_text : Result SokettoError (Unit {0}) × sk.Tx → Result SokettoError (Unit {0}) × sk.Tx
  after_text (ok _, tx) = sk.flush tx
  after_text (err e, tx) = (err e, tx)

  unfoldable pub send_and_flush : sk.Tx → Json → Result SokettoError (Unit {0}) × sk.Tx
  unfolding after_text
  send_and_flush tx text = after_text (sk.send_text tx text)

  -- The encryption of the text failed.
  encryption_failed : MessageCryptoErrorPolicy → sk.Tx → Result SokettoError (Unit {0}) × sk.Tx
  unfolding send_and_flush error_json encryption_error
  encryption_failed send_error tx =
      send_and_flush tx (error_json rt RequestId.null encryption_error)
  encryption_failed close_connection tx = (err closed, tx)
  encryption_failed skip_message tx = (err closed, tx)

  send_encrypted :
      MessageCryptoErrorPolicy → Option Json → sk.Tx → Result SokettoError (Unit {0}) × sk.Tx
  unfolding encryption_failed send_and_flush
  send_encrypted policy none tx = encryption_failed policy tx
  send_encrypted policy (some text) tx = send_and_flush tx text

  unfoldable pub send_message :
      Option MessageEncryption
      → MessageCryptoErrorPolicy
      → sk.Tx
      → Json
      → Result SokettoError (Unit {0}) × sk.Tx
  unfolding send_encrypted
  send_message none policy tx text = send_and_flush tx text
  send_message (some enc) policy tx text = send_encrypted policy (enc.encrypt text) tx

  unfoldable pub send_ping : sk.Tx → Result SokettoError (Unit {0}) × sk.Tx
  unfolding after_text
  send_ping tx = after_text (sk.send_ping tx)
