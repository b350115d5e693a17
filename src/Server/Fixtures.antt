-- ===== src/Server/Fixtures.antt =====
-- Small inputs that the runs of the server share.
use jsonrpseex.Prelude.{◌≡◌, refl, none, some, List, [], ◌∷◌, ◌++◌, Bool, true, false}
use jsonrpseex.Types.Ids.{RequestId}
use jsonrpseex.Types.Error.{Json}
use jsonrpseex.Server.Runtime.{Runtime}
use jsonrpseex.Server.Queue.{Queue, TrySend}
use jsonrpseex.Server.Response.{notification}
use jsonrpseex.Server.Rpc.{Reader, RpcServiceT}

abbrev pub rt1 : Runtime
rt1 = record {
  Ext = Unit {0};
  no_ext = tt;
  extend = λ a b. tt;
  NotifyTx = Unit {0};
  Sink = Unit {0};
  IdProvider = Unit {0};
  write_error = λ r. b'e' ∷ [];
  write_text = λ s. none;
  null_json = b'n' ∷ [];
}

-- A queue that is closed or has all the space that there is.
pub record Buffer : Type 0 where
  pub closed : Bool
  pub items : List Json

abbrev pub open_queue : Buffer
open_queue = record { closed = false; items = [] }

unfoldable pub send_if : Bool → Buffer → Json → Bool × Buffer
send_if true b j = (false, b)
send_if false b j = (true, record b { items = b.items ++ j ∷ [] })

unfoldable pub try_if : Bool → Buffer → Json → TrySend × Buffer
try_if true b j = (TrySend.closed_now, b)
try_if false b j = (TrySend.sent_now, record b { items = b.items ++ j ∷ [] })

pub sent_if :
    (c : Bool) (b : Buffer) (j : Json)
    → c ≡ false
    → ((send_if c b j).0 ≡ true) × ((send_if c b j).1.items ≡ b.items ++ j ∷ [])
unfolding send_if
sent_if true b j e = absurd (cc e)
sent_if false b j e = (refl, refl)

pub not_sent_if :
    (c : Bool) (b : Buffer) (j : Json)
    → c ≡ true
    → ((send_if c b j).0 ≡ false) × ((send_if c b j).1.items ≡ b.items)
unfolding send_if
not_sent_if true b j e = (refl, refl)
not_sent_if false b j e = absurd (cc e)

pub still_open :
    (c : Bool) (b : Buffer) (j : Json)
    → c ≡ false
    → b.closed ≡ false
    → (send_if c b j).1.closed ≡ false
unfolding send_if
still_open true b j e f = f
still_open false b j e f = f

abbrev pub queue1 : Queue
queue1 = record {
  Channel = Buffer;
  send = λ b j. send_if b.closed b j;
  try_send = λ b j. try_if b.closed b j;
  is_closed = λ b. b.closed;
  sent = λ b. b.items;
  send_open = λ b j e. sent_if b.closed b j e;
  send_closed = λ b j e. not_sent_if b.closed b j e;
  stays_open = λ b j e. still_open b.closed b j e e;
}

-- Nothing is read as a call.
abbrev pub reader0 : Reader rt1
reader0 = record {
  read_call = λ j e. none;
  read_notification = λ j e. none;
  read_invalid = λ j. some (RequestId.number 7);
  read_array = λ j. none;
}

-- A service that does nothing.
abbrev pub service0 : {St : Type 0} → RpcServiceT rt1 St
service0 = record {
  call = λ req st. (notification rt1, st);
  batch = λ es st. (notification rt1, st);
  notification = λ n st. (notification rt1, st);
}
