-- ===== src/Client/World.antt =====
-- What the background task of the client acts on: its request manager, the channels to the front
-- end, and the transport (core/src/client/mod.rs, core/src/client/async_client/mod.rs).
use jsonrpseex.Prelude.{
  ℕ, suc, ◌==◌, String, Option, List, [], ◌∷◌, ◌++◌, Bool, true, false, if◌then◌else◌,
}
use jsonrpseex.Types.Result.{Result, ok, err}
use jsonrpseex.Types.Ids.{RequestId, SubscriptionId, InvalidRequestId}
use jsonrpseex.Types.Method.{RegisterMethodError}
use jsonrpseex.Types.Error.{ErrorObject, Json}
use jsonrpseex.Types.Response.{Response}
use jsonrpseex.Client.Manager
use jsonrpseex.Client.Manager.{RequestManager}

-- What tokio's bounded channel answers to `try_send`.
pub data TrySend : Type 0 where
  sent closed full : TrySend

-- `RawResponseOwned`
abbrev pub RawResponse : Type 0
RawResponse = Response Json

-- The code that the client calls and that is not part of the repository. `Chan` is the sending half
-- of a bounded channel in its current state, `Oneshot` the sending half of a oneshot channel. The
-- readers are serde's, for the types of the messages that a client can receive.
pub record Runtime : Type 1 where
  pub Chan : Type 0
  pub Oneshot : Type 0
  pub channel : ℕ → Chan
  pub try_send : Chan → Json → TrySend × Chan
  pub is_open : Oneshot → Bool
  -- Whether the transport takes a message, after those that it was given before.
  pub accepts : List Json → Json → Bool
  pub read_response : Json → Option RawResponse
  pub read_sub_response : Json → Option (SubscriptionId × Json)
  pub read_sub_error : Json → Option SubscriptionId
  pub read_notification : Json → Option (String × Option Json)
  pub read_array : Json → Option (List Json)
  pub read_sub_id : Json → Option SubscriptionId
  -- The unsubscribe request, with the subscription id as its only parameter.
  pub write_unsubscribe : RequestId → String → SubscriptionId → Option Json
  pub null_json : Json
  pub show_range : ℕ → ℕ → String
  pub show_unparsed : Json → String

-- core/src/client/error.rs
pub data ClientError : Type 0 where
  call : ErrorObject → ClientError
  parse_error : ClientError
  invalid_subscription_id : ClientError
  invalid_request_id : InvalidRequestId → ClientError
  custom : String → ClientError
  empty_batch_request : ClientError
  register_method : RegisterMethodError → ClientError
  transport : ClientError
  restart_needed : ClientError → ClientError
  request_timeout http_not_implemented service_disconnect : ClientError

-- `SubscriptionSender`: the number of its channel, by which its receiver and the flag that they
-- share are known, and the channel.
pub record Sender (rt : Runtime) : Type 0 where
  pub id : ℕ
  pub inner : rt.Chan

-- What was sent over a oneshot channel, also if its receiver is gone. A subscription's receiver is the number of its channel.
pub data Delivery (rt : Runtime) : Type 0 where
  call_reply : rt.Oneshot → Result InvalidRequestId RawResponse → Delivery rt
  batch_reply : rt.Oneshot → Result InvalidRequestId (List RawResponse) → Delivery rt
  subscribe_reply : rt.Oneshot → Result ClientError (ℕ × SubscriptionId) → Delivery rt
  register_reply : rt.Oneshot → Result ClientError (ℕ × String) → Delivery rt

abbrev pub ClientManager : Runtime → Type 0
ClientManager rt = RequestManager rt.Oneshot (Sender rt)

-- `max_capacity` is the argument `max_capacity_per_subscription` of the handlers, which does not
-- change. `delivered` and `wire` grow at the end; `lagged` holds the channels whose flag is set.
pub record World (rt : Runtime) : Type 0 where
  pub manager : ClientManager rt
  pub max_capacity : ℕ
  pub next_channel : ℕ
  pub lagged : List ℕ
  pub delivered : List (Delivery rt)
  pub wire : List Json

-- `RequestMessage`
pub record RequestMessage (rt : Runtime) : Type 0 where
  pub raw : Json
  pub id : RequestId
  pub send_back : Option rt.Oneshot

-- `.expect(…)` on a value that is not there is a panic.
pub data Outcome (A : Type 0) : Type 0 where
  done : A → Outcome A
  fails : ClientError → Outcome A
  panics : Outcome A

pub data SendError : Type 0 where
  closed : SendError
  too_slow : Json → SendError

module _ (rt : Runtime) where
  abbrev pub start : ℕ → World rt
  start max_capacity = record {
    manager = Manager.init;
    max_capacity = max_capacity;
    next_channel = 0;
    lagged = [];
    delivered = [];
    wire = [];
  }

  abbrev pub deliver : World rt → Delivery rt → World rt
  deliver w d = record w { delivered = w.delivered ++ d ∷ [] }

  -- `TransportSenderT::send`
  abbrev pub transmit : World rt → Json → Outcome (Unit {0}) × World rt
  transmit w j =
      if rt.accepts w.wire j
      then (done tt, record w { wire = w.wire ++ j ∷ [] })
      else (fails transport, w)

  -- `subscription_channel`
  unfoldable pub subscription_channel : World rt → ℕ → Sender rt × World rt
  subscription_channel w max_buf_size = (
    record { id = w.next_channel; inner = rt.channel max_buf_size },
    record w { next_channel = suc w.next_channel },
  )

  -- `SubscriptionLagged::set_lagged` and `has_lagged`
  abbrev pub set_lagged : World rt → ℕ → World rt
  set_lagged w c = record w { lagged = c ∷ w.lagged }

  after_try_send :
      World rt
      → Sender rt
      → Json
      → TrySend × rt.Chan
      → Result SendError (Unit {0}) × Sender rt × World rt
  after_try_send w s msg (TrySend.sent, c) = (ok tt, record s { inner = c }, w)
  after_try_send w s msg (TrySend.closed, c) = (err SendError.closed, record s { inner = c }, w)
  after_try_send w s msg (TrySend.full, c) =
      (err (too_slow msg), record s { inner = c }, set_lagged w s.id)

  -- `SubscriptionSender::send`
  unfoldable pub send :
      World rt → Sender rt → Json → Result SendError (Unit {0}) × Sender rt × World rt
  unfolding after_try_send
  send w s msg = after_try_send w s msg (rt.try_send s.inner msg)

unfoldable pub has_lagged : List ℕ → ℕ → Bool
has_lagged [] c = false
has_lagged (d ∷ l) c = if d == c then true else has_lagged l c
