-- ===== src/Server/Websocket/Message/Answers.antt =====
-- What is sent for a message that a websocket received.
use jsonrpseex.Prelude.{
  ◌≡◌, ◌≢◌, refl, ◌∙◌, ap, ◌⊎◌, inl, inr, arith, ℕ, Option, none, some, List, [], ◌∷◌, ◌++◌, Bool,
  true, false, ◌==◌, append-nil,
}
use jsonrpseex.Types.Result.{ok}
use jsonrpseex.Types.Ids.{RequestId}
use jsonrpseex.Types.Error.{Json}
use jsonrpseex.Server.Runtime.{Runtime}
use jsonrpseex.Server.Response.Kind.{ResponseKind}
use jsonrpseex.Types.Error
use jsonrpseex.Prelude.Int.{neg}
use jsonrpseex.Server.Response.{MethodResponse, error_json}
use jsonrpseex.Server.Rpc.{Reader, RpcServiceT, BatchRequestConfig, handle_rpc_call}
use jsonrpseex.Server.Body.{trim}
use jsonrpseex.Server.Queue.{Queue}
use jsonrpseex.Server.Websocket.{
  MessageEncryption, MessageCryptoErrorPolicy, Socket, send_error, close_connection, skip_message,
  decryption_error, send_message,
}
use jsonrpseex.Server.Websocket.Message.{
  Handling, Place, decrypted, send_reply, send_error_to, handle_message,
}

-- The messages for a response: itself for a call and a batch, and none for what the sink of a
-- subscription sends or nobody waits for.
unfoldable pub messages : ResponseKind → Json → List Json
messages ResponseKind.method_call json = json ∷ []
messages ResponseKind.batch json = json ∷ []
messages ResponseKind.subscription json = []
messages ResponseKind.notification json = []

abbrev pub reply : {rt : Runtime} → MethodResponse rt → List Json
reply rp = messages rp.kind rp.json

-- What is told of a text that cannot be decrypted.
unfoldable pub complaint : Runtime → MessageCryptoErrorPolicy → List Json
unfolding error_json Error.new
complaint rt send_error =
    error_json rt RequestId.null (Error.new (neg 32013) "Message decryption failed" none) ∷ []
complaint rt _ = []

module _ (rt : Runtime) (q : Queue) {St : Type 0} (place : Place q.Channel St) where
  send_reply_lem :
      (rp : MethodResponse rt) (h : Handling rt St)
      → q.is_closed (place.get h.state) ≡ false
      → q.sent (place.get (send_reply rt q place rp h).state)
        ≡ q.sent (place.get h.state) ++ reply rp
  unfolding send_reply messages
  send_reply_lem rp h open_ = ground (
    arith,
    open_,
    q.send_open (place.get h.state) rp.json open_,
    place.get_put (q.send (place.get h.state) rp.json).1 h.state,
    append-nil (q.sent (place.get h.state)),
  )

  module _ (rd : Reader rt) (service : RpcServiceT rt St) (config : BatchRequestConfig)
      (ext : rt.Ext) (is_utf8 : Json → Bool) where
    handed_over :
        (policy : MessageCryptoErrorPolicy) (enc : Option MessageEncryption)
        (bytes plain rest : Json) (first : ℕ) (h : Handling rt St)
        → (first ≡ b'{') ⊎ (first ≡ b'[')
        → decrypted is_utf8 policy enc bytes ≡ ok plain
        → trim 128 plain ≡ some (first, rest)
        → let (rp, st) = handle_rpc_call rt rd service rest (first == b'{') config ext h.state in
          handle_message rt q place rd service config ext is_utf8 policy enc bytes h
          ≡ send_reply rt q place rp (record h { state = st })
    unfolding handle_message
    handed_over policy enc bytes plain rest first h (inl b) d t = rw (d, t, b)
    handed_over policy enc bytes plain rest first h (inr b) d t = rw (d, t, b)

    -- A message that begins like an object or like an array is handed to `handle_rpc_call` from that
    -- byte on, and when the queue is open then, one message is sent beyond what the service sent:
    -- the response, if it is of a call or of a batch; none for notifications and subscriptions.
    pub handle_message-reply :
        (policy : MessageCryptoErrorPolicy) (enc : Option MessageEncryption)
        (bytes plain rest : Json) (first : ℕ) (h : Handling rt St)
        → (first ≡ b'{') ⊎ (first ≡ b'[')
        → decrypted is_utf8 policy enc bytes ≡ ok plain
        → trim 128 plain ≡ some (first, rest)
        → q.is_closed
            (place.get (handle_rpc_call rt rd service rest (first == b'{') config ext h.state).1)
          ≡ false
        → let (rp, st) = handle_rpc_call rt rd service rest (first == b'{') config ext h.state in
          let after = handle_message rt q place rd service config ext is_utf8 policy enc bytes h in
          q.sent (place.get after.state) ≡ q.sent (place.get st) ++ reply rp
    handle_message-reply policy enc bytes plain rest first h b d t open_ =
        ap (λ a. q.sent (place.get a.state)) (handed_over policy enc bytes plain rest first h b d t)
        ∙ send_reply_lem (handle_rpc_call rt rd service rest (first == b'{') config ext h.state).0
            (record h {
              state = (handle_rpc_call rt rd service rest (first == b'{') config ext h.state).1;
            })
            open_

    -- A text that cannot be decrypted never reaches the service: under `SendError` and
    -- `SkipMessage` nothing changes but the queue, which, if it is open, gets the error -32013 with a
    -- null id under `SendError` and nothing under `SkipMessage`, and stays open.
    pub handle_message_undecryptable :
        (policy : MessageCryptoErrorPolicy) (enc : MessageEncryption) (bytes : Json)
        (h : Handling rt St)
        → policy ≢ close_connection
        → is_utf8 bytes ≡ true
        → enc.decrypt bytes ≡ none
        → q.is_closed (place.get h.state) ≡ false
        → (c : q.Channel) × (handle_message rt q place rd service config ext is_utf8 policy
              (some enc)
              bytes
              h
            ≡ record h { state = place.put c h.state })
          × (q.sent c ≡ q.sent (place.get h.state) ++ complaint rt policy)
          × (q.is_closed c ≡ false)
    unfolding handle_message decrypted complaint send_error_to decryption_error
    handle_message_undecryptable send_error enc bytes h ne u d open_ =
        let e = error_json rt RequestId.null decryption_error in
        (
          (q.send (place.get h.state) e).1,
          rw (u, d),
          (q.send_open (place.get h.state) e open_).1,
          q.stays_open (place.get h.state) e open_,
        )
    handle_message_undecryptable close_connection enc bytes h ne u d open_ = absurd (ne refl)
    handle_message_undecryptable skip_message enc bytes h ne u d open_ =
        (place.get h.state, rw (u, d, place.put_get h.state), rw append-nil, open_)

  -- With an encryption whose `decrypt` undoes its `encrypt` at a text, a peer's message and a
  -- response go through the encryption without any difference: the encrypted message is handled as
  -- the plain one is without encryption, and sending the text puts its encryption on the socket.
  pub handle_message_encrypted :
      (rd : Reader rt) (service : RpcServiceT rt St) (config : BatchRequestConfig) (ext : rt.Ext)
      (is_utf8 : Json → Bool) (sk : Socket) (policy : MessageCryptoErrorPolicy)
      (enc : MessageEncryption) (plain cipher : Json) (h : Handling rt St) (tx : sk.Tx)
      → enc.encrypt plain ≡ some cipher
      → enc.decrypt cipher ≡ some plain
      → is_utf8 cipher ≡ true
      → (handle_message rt q place rd service config ext is_utf8 policy (some enc) cipher h
          ≡ handle_message rt q place rd service config ext is_utf8 policy none plain h)
        × (send_message rt sk (some enc) policy tx plain ≡ send_message rt sk none policy tx cipher)
  unfolding handle_message decrypted send_message
  handle_message_encrypted rd service config ext is_utf8 sk policy enc plain cipher h tx e d u =
      (rw (u, d), rw e)
