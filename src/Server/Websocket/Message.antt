-- ===== src/Server/Websocket/Message.antt =====
-- server/src/transport/ws.rs: the task that `background_task` starts for a message it received.
pub mod Answers
use jsonrpseex.Prelude.{
  ℕ, ◌≡◌, Option, none, some, List, ◌∷◌, Bool, true, false, ◌||◌, ◌==◌, if◌then◌else◌,
}
use jsonrpseex.Types.Result.{Result, ok, err}
use jsonrpseex.Types.Ids.{RequestId}
use jsonrpseex.Types.Error
use jsonrpseex.Types.Error.{ErrorObject, ErrorCode, Json}
use jsonrpseex.Server.Runtime.{Runtime}
use jsonrpseex.Server.Response.Kind.{ResponseKind, MethodResponseResult, failed}
use jsonrpseex.Server.Response.{MethodResponse, error_json}
use jsonrpseex.Server.Rpc.{Reader, RpcServiceT, BatchRequestConfig, handle_rpc_call}
use jsonrpseex.Server.Body.{trim}
use jsonrpseex.Server.Queue.{Queue}
use jsonrpseex.Server.Websocket.{
  MessageEncryption, MessageCryptoErrorPolicy, send_error, close_connection, skip_message,
  decryption_error,
}

-- The bytes to read, or the error that is sent if any is.
after_decrypt : MessageCryptoErrorPolicy → Option Json → Result (Option ErrorObject) Json
unfolding decryption_error
after_decrypt policy (some bytes) = ok bytes
after_decrypt send_error none = err (some decryption_error)
after_decrypt close_connection none = err none
after_decrypt skip_message none = err none

-- `is_utf8` tells whether the bytes are a text, which only a text is decrypted.
unfoldable pub decrypted :
    (Json → Bool)
    → MessageCryptoErrorPolicy
    → Option MessageEncryption
    → Json
    → Result (Option ErrorObject) Json
unfolding after_decrypt Error.from_error_code
decrypted is_utf8 policy none bytes = ok bytes
decrypted is_utf8 policy (some enc) bytes =
    if is_utf8 bytes
    then after_decrypt policy (enc.decrypt bytes)
    else err (some (Error.from_error_code ErrorCode.parse_error))

-- The state that the service acts on, which the connection's queue is a part of, and what was told
-- to those that wait for a response to be sent.
pub record Handling (rt : Runtime) (St : Type 0) : Type 0 where
  pub state : St
  pub notified : List (rt.NotifyTx × Bool)

-- Where the queue of the connection is in the state.
pub record Place (Q St : Type 0) : Type 0 where
  pub get : St → Q
  pub put : Q → St → St
  pub get_put : (c : Q) (s : St) → get (put c s) ≡ c
  pub put_get : (s : St) → put (get s) s ≡ s

is_success : MethodResponseResult → Bool
is_success MethodResponseResult.success = true
is_success (failed _) = false

notify :
    (rt : Runtime)
    → Option rt.NotifyTx
    → Bool
    → List (rt.NotifyTx × Bool)
    → List (rt.NotifyTx × Bool)
notify rt none success told = told
notify rt (some n) success told = (n, success) ∷ told

-- `is_method_call() || is_batch()`
unfoldable pub is_sent : ResponseKind → Bool
is_sent ResponseKind.method_call = true
is_sent ResponseKind.batch = true
is_sent ResponseKind.subscription = false
is_sent ResponseKind.notification = false

module _ (rt : Runtime) (q : Queue) {St : Type 0} (place : Place q.Channel St) where
  -- `MethodSink::send_error`; the result is not looked at.
  unfoldable pub send_error_to : ErrorObject → Handling rt St → Handling rt St
  unfolding error_json
  send_error_to e h = record h {
    state = place.put (q.send (place.get h.state) (error_json rt RequestId.null e)).1 h.state;
  }

  unfoldable pub send_reply : MethodResponse rt → Handling rt St → Handling rt St
  unfolding is_sent notify is_success
  send_reply rp h =
      let (sent, queue) = q.send (place.get h.state) rp.json in
      if is_sent rp.kind
      then if sent
        then record {
          state = place.put queue h.state;
          notified = notify rt rp.on_close (is_success rp.success_or_error) h.notified;
        }
        else record h { state = place.put queue h.state }
      else h

  module _ (rd : Reader rt) (service : RpcServiceT rt St) (config : BatchRequestConfig)
      (ext : rt.Ext) where
    handled : Json → Bool → Handling rt St → Handling rt St
    unfolding handle_rpc_call send_reply
    handled bytes is_single h =
        let (rp, st) = handle_rpc_call rt rd service bytes is_single config ext h.state in
        send_reply rp (record h { state = st })

    by_first : Option (ℕ × Json) → Handling rt St → Handling rt St
    unfolding handled send_error_to Error.from_error_code
    by_first none h = send_error_to (Error.from_error_code ErrorCode.parse_error) h
    by_first (some (first, bytes)) h =
        if first == b'{'
        then handled bytes true h
        else if first == b'['
        then handled bytes false h
        else send_error_to (Error.from_error_code ErrorCode.parse_error) h

    on_decrypted : Result (Option ErrorObject) Json → Handling rt St → Handling rt St
    unfolding by_first send_error_to trim
    on_decrypted (ok bytes) h = by_first (trim 128 bytes) h
    on_decrypted (err none) h = h
    on_decrypted (err (some e)) h = send_error_to e h

    unfoldable pub handle_message :
        (Json → Bool)
        → MessageCryptoErrorPolicy
        → Option MessageEncryption
        → Json
        → Handling rt St
        → Handling rt St
    unfolding on_decrypted decrypted
    handle_message is_utf8 policy enc bytes h = on_decrypted (decrypted is_utf8 policy enc bytes) h
