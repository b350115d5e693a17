-- ===== src/Server/Websocket/Tests.antt =====
-- Runs of the websocket transport on small inputs.
use jsonrpseex.Prelude.{◌≡◌, inl, refl, arith, none, some, List, [], ◌∷◌, ◌++◌, true, false, ◌==◌}
use jsonrpseex.Types.Result.{ok}
use jsonrpseex.Types.Error.{Json}
use jsonrpseex.Server.Rpc.{disabled, handle_rpc_call}
use jsonrpseex.Server.Fixtures.{rt1, queue1, Buffer, open_queue, reader0, service0}
use jsonrpseex.Server.Body.{trim}
use jsonrpseex.Server.Websocket.{MessageEncryption, send_error, close_connection, Socket}
use jsonrpseex.Server.Websocket.Message.{Handling, Place, handle_message, decrypted}
use jsonrpseex.Server.Websocket.Message.Answers.{
  reply, complaint, handle_message-reply, handle_message_undecryptable,
}
use jsonrpseex.Server.Websocket.Session.{PingConfig, Watch, session}
use jsonrpseex.Server.Websocket.Session.Idle.{ticks, closed_idle, session_idle}
use jsonrpseex.Server.Websocket.Outgoing.{Wakeup, message, ping, stop, send_task}
use jsonrpseex.Server.Websocket.Outgoing.Order.{Working, messages, texts, send_task_order}

abbrev ping1 : PingConfig
ping1 = record { ping_interval = 30; inactive_limit = 40; max_failures = 2 }

abbrev watch1 : Watch
watch1 = record { last_active = 100; missed_pings = 0 }

abbrev place1 : Place Buffer Buffer
place1 = record { get = λ b. b; put = λ c b. c; get_put = λ c b. refl; put_get = λ b. refl }

abbrev handling1 : Handling rt1 Buffer
handling1 = record { state = open_queue; notified = [] }

-- It encrypts nothing and decrypts nothing.
abbrev broken : MessageEncryption
broken = record { encrypt = λ j. none; decrypt = λ j. none }

-- A socket that keeps what is written.
abbrev socket1 : Socket
socket1 = record {
  Tx = List Json;
  send_text = λ tx t. (ok tt, tx ++ t ∷ []);
  send_ping = λ tx. (ok tt, tx);
  flush = λ tx. (ok tt, tx);
  close = λ tx. tx;
}

abbrev working1 : Working socket1
working1 = record {
  written = λ tx. tx;
  text_ok = λ tx t. (refl, refl);
  ping_ok = λ tx. (refl, refl);
  flush_ok = λ tx. (refl, refl);
  close_ok = λ tx. refl;
}

abbrev wakeups1 : List Wakeup
wakeups1 = message (b'1' ∷ []) ∷ ping ∷ message (b'2' ∷ []) ∷ stop ∷ message (b'3' ∷ []) ∷ []

session_idle_example :
    session rt1 queue1
      (some ping1)
      1000
      (ticks watch1.last_active ping1.ping_interval 1 3)
      watch1
      open_queue
    ≡ closed_idle rt1 queue1 ping1 1000 open_queue
session_idle_example =
    session_idle rt1 queue1 ping1 1000 3 2 watch1 open_queue (omega arith) (omega arith)
      (omega arith)

handle_message-reply_example :
    let (rp, st) =
      handle_rpc_call rt1 reader0 service0 (b'{' ∷ []) (b'{' == b'{') disabled tt handling1.state in
    let after =
      handle_message rt1 queue1 place1 reader0 service0 disabled tt
        (λ j. true)
        close_connection
        none
        (b'{' ∷ [])
        handling1 in
    queue1.sent (place1.get after.state) ≡ queue1.sent (place1.get st) ++ reply rp
unfolding decrypted trim handle_rpc_call
handle_message-reply_example =
    handle_message-reply rt1 queue1 place1 reader0 service0 disabled tt (λ j. true) close_connection
      none (b'{' ∷ []) (b'{' ∷ []) (b'{' ∷ []) b'{' handling1 (inl refl) refl refl refl

handle_message_undecryptable_example :
    (c : queue1.Channel) × (handle_message rt1 queue1 place1 reader0 service0 disabled tt
        (λ j. true)
        send_error
        (some broken)
        (b'{' ∷ [])
        handling1
      ≡ record handling1 { state = place1.put c handling1.state })
    × (queue1.sent c ≡ queue1.sent (place1.get handling1.state) ++ complaint rt1 send_error)
    × (queue1.is_closed c ≡ false)
handle_message_undecryptable_example =
    handle_message_undecryptable rt1 queue1 place1 reader0 service0 disabled tt (λ j. true)
      send_error broken (b'{' ∷ []) handling1 (λ e. cc e) refl refl refl

send_task_order_example :
    working1.written (send_task rt1 socket1 none send_error wakeups1 [])
    ≡ working1.written [] ++ texts rt1 socket1 working1 none (messages wakeups1)
send_task_order_example = send_task_order rt1 socket1 working1 none wakeups1 []
