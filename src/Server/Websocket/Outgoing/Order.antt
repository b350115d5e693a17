-- ===== src/Server/Websocket/Outgoing/Order.antt =====
-- What `send_task` writes to a socket that works.
use jsonrpseex.Prelude.{
  ◌≡◌, ◌∙◌, sym, arith, Option, none, some, List, [], ◌∷◌, ◌++◌, append_assoc, append-nil,
  Option-cases, inl, inr,
}
use jsonrpseex.Types.Result.{ok}
use jsonrpseex.Types.Ids.{RequestId}
use jsonrpseex.Types.Error.{Json}
use jsonrpseex.Server.Runtime.{Runtime}
use jsonrpseex.Server.Response.{error_json}
use jsonrpseex.Server.Websocket.{
  MessageEncryption, Socket, send_error, encryption_error, send_message, send_and_flush, send_ping,
}
use jsonrpseex.Server.Websocket.Outgoing.{
  Wakeup, message, queue_end, ping, stop, send_task, send_loop,
}

-- A socket that works: nothing fails, and a text that is sent is added to what is written.
pub record Working (sk : Socket) : Type 0 where
  pub written : sk.Tx → List Json
  pub text_ok :
      (tx : sk.Tx) (t : Json)
      → ((sk.send_text tx t).0 ≡ ok tt) × (written (sk.send_text tx t).1 ≡ written tx ++ t ∷ [])
  pub ping_ok :
      (tx : sk.Tx) → ((sk.send_ping tx).0 ≡ ok tt) × (written (sk.send_ping tx).1 ≡ written tx)
  pub flush_ok : (tx : sk.Tx) → ((sk.flush tx).0 ≡ ok tt) × (written (sk.flush tx).1 ≡ written tx)
  pub close_ok : (tx : sk.Tx) → written (sk.close tx) ≡ written tx

-- The messages before the end of the queue or the stop.
unfoldable pub messages : List Wakeup → List Json
messages [] = []
messages (message json ∷ es) = json ∷ messages es
messages (queue_end ∷ es) = []
messages (ping ∷ es) = messages es
messages (stop ∷ es) = []

module _ (rt : Runtime) (sk : Socket) (ok_socket : Working sk)
    (enc : Option MessageEncryption) where
  or_error : Option Json → Json
  unfolding error_json encryption_error
  or_error (some text) = text
  or_error none = error_json rt RequestId.null encryption_error

  -- The text for a message: encrypted if there is an encryption, the error if that fails.
  unfoldable pub text_for : Option MessageEncryption → Json → Json
  unfolding or_error
  text_for none json = json
  text_for (some e) json = or_error (e.encrypt json)

  unfoldable pub texts : List Json → List Json
  unfolding text_for
  texts [] = []
  texts (j ∷ js) = text_for enc j ∷ texts js

  send_and_flush_lem :
      (tx : sk.Tx) (t : Json)
      → ((send_and_flush rt sk tx t).0 ≡ ok tt)
        × (ok_socket.written (send_and_flush rt sk tx t).1 ≡ ok_socket.written tx ++ t ∷ [])
  unfolding send_and_flush
  send_and_flush_lem tx t =
      ground (arith, ok_socket.text_ok tx t, ok_socket.flush_ok (sk.send_text tx t).1)

  send_message_lem :
      (e : Option MessageEncryption) (tx : sk.Tx) (json : Json)
      → ((send_message rt sk e send_error tx json).0 ≡ ok tt)
        × (ok_socket.written (send_message rt sk e send_error tx json).1
            ≡ ok_socket.written tx ++ text_for e json ∷ [])
  unfolding send_message text_for
  send_message_lem none tx json = send_and_flush_lem tx json
  send_message_lem (some e) tx json = elim (Option-cases (e.encrypt json)) [
    | inl f ↦
        ground (arith, f, send_and_flush_lem tx (error_json rt RequestId.null encryption_error))
    | inr (c, f) ↦ ground (arith, f, send_and_flush_lem tx c)
  ]

  send_ping_lem :
      (tx : sk.Tx)
      → ((send_ping rt sk tx).0 ≡ ok tt)
        × (ok_socket.written (send_ping rt sk tx).1 ≡ ok_socket.written tx)
  unfolding send_ping
  send_ping_lem tx = ground (arith, ok_socket.ping_ok tx, ok_socket.flush_ok (sk.send_ping tx).1)

  send_loop_lem :
      (es : List Wakeup) (tx : sk.Tx)
      → ok_socket.written (send_loop rt sk enc send_error es tx)
        ≡ ok_socket.written tx ++ texts (messages es)
  unfolding send_loop messages texts
  send_loop_lem [] tx = sym (append-nil (ok_socket.written tx))
  send_loop_lem (queue_end ∷ es) tx = sym (append-nil (ok_socket.written tx))
  send_loop_lem (stop ∷ es) tx = sym (append-nil (ok_socket.written tx))
  send_loop_lem (ping ∷ es) tx =
      ground (arith, send_ping_lem tx, send_loop_lem es (send_ping rt sk tx).1)
  send_loop_lem (message json ∷ es) tx =
      let tx' = (send_message rt sk enc send_error tx json).1 in
      ground (
        arith,
        send_message_lem enc tx json,
        send_loop_lem es tx',
        append_assoc (ok_socket.written tx) (text_for enc json ∷ []) (texts (messages es)),
      )

  -- On a socket that works, and with the policy `SendError`, the task writes exactly the messages of
  -- the queue before its end or the stop, in their order, each encrypted if there is an encryption,
  -- with the encryption error in place of one that cannot be encrypted; pings add no text.
  pub send_task_order :
      (es : List Wakeup) (tx : sk.Tx)
      → ok_socket.written (send_task rt sk enc send_error es tx)
        ≡ ok_socket.written tx ++ texts (messages es)
  unfolding send_task
  send_task_order es tx =
      ok_socket.close_ok (send_loop rt sk enc send_error es tx) ∙ send_loop_lem es tx
