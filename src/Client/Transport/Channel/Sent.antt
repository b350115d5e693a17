-- ===== src/Client/Transport/Channel/Sent.antt =====
-- What is sent over a connection comes back at its other end.
use jsonrpseex.Prelude.{◌≡◌, ◌≤◌, arith, Option-cases, inl, inr, some, length}
use jsonrpseex.Types.Result.{ok}
use jsonrpseex.Types.Error.{Json}
use jsonrpseex.Client.Backend.{text}
use jsonrpseex.Server.Websocket.{MessageEncryption}
use jsonrpseex.Client.Transport.Channel.{
  Soketto, text_data, Sender, Receiver, send, receive, encrypted,
}

module _ (sk : Soketto) where
  -- A text that can be encrypted, if there is an encryption, and then is no longer than the maximum
  -- size of a request is sent, if soketto sends. If the other end, with the same encryption, receives
  -- what was given to soketto, and decryption undoes encryption, it receives the text.
  pub send-receive :
      (s : Sender sk) (r : Receiver sk) (body sent : Json) (tx tx' : sk.Tx) (rx : sk.Rx)
      → s.message_encryption ≡ r.message_encryption
      → ((e : MessageEncryption) (t u : Json)
          → s.message_encryption ≡ some e
          → e.encrypt t ≡ some u
          → e.decrypt u ≡ some t)
      → encrypted sk s.message_encryption body ≡ some sent
      → length sent ≤ s.max_request_size
      → sk.send_text s.inner sent ≡ (ok tt, tx)
      → sk.flush tx ≡ (ok tt, tx')
      → sk.from_utf8 sent ≡ ok sent
      → sk.receive r.inner ≡ (ok (text_data sent), rx)
      → (send sk s body ≡ (ok tt, record s { inner = tx' }))
        × (receive sk r ≡ (ok (text body), record r { inner = rx }))
  unfolding send receive encrypted
  send-receive s r body sent tx tx' rx same undo enc fits sends flushes utf8 received =
      elim (Option-cases s.message_encryption) [
        | inl n ↦ ground (arith, n, same, enc, sends, flushes, utf8, received)
        | inr (e, n) ↦
            ground (arith, n, same, enc, sends, flushes, utf8, received, undo e body sent n)
      ]
