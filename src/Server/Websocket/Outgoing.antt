-- ===== src/Server/Websocket/Outgoing.antt =====
-- server/src/transport/ws.rs: `send_task`, which writes the messages of the queue to the socket.
pub mod Order
use jsonrpseex.Prelude.{Option, List, [], ◌∷◌}
use jsonrpseex.Types.Result.{Result, ok, err}
use jsonrpseex.Types.Error.{Json}
use jsonrpseex.Server.Runtime.{Runtime}
use jsonrpseex.Server.Websocket.{
  MessageEncryption, MessageCryptoErrorPolicy, Socket, SokettoError, send_message, send_ping,
}

-- What the loop waits for: a message of the queue, the end of the queue, a ping, or the stop.
pub data Wakeup : Type 0 where
  message : Json → Wakeup
  queue_end ping stop : Wakeup

module _ (rt : Runtime) (sk : Socket) (enc : Option MessageEncryption)
    (policy : MessageCryptoErrorPolicy) where
  unless_failed : (sk.Tx → sk.Tx) → Result SokettoError (Unit {0}) × sk.Tx → sk.Tx
  unless_failed rest (ok _, tx) = rest tx
  unless_failed rest (err _, tx) = tx

  -- The loop: the socket when it is left, or when there is no event yet.
  unfoldable pub send_loop : List Wakeup → sk.Tx → sk.Tx
  unfolding unless_failed send_message send_ping
  send_loop [] tx = tx
  send_loop (message json ∷ es) tx =
      unless_failed (λ tx'. send_loop es tx') (send_message rt sk enc policy tx json)
  send_loop (queue_end ∷ es) tx = tx
  send_loop (ping ∷ es) tx = unless_failed (λ tx'. send_loop es tx') (send_ping rt sk tx)
  send_loop (stop ∷ es) tx = tx

  unfoldable pub send_task : List Wakeup → sk.Tx → sk.Tx
  unfolding send_loop
  send_task es tx = sk.close (send_loop es tx)
