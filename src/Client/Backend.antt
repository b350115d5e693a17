-- ===== src/Client/Backend.antt =====
-- core/src/client/async_client/mod.rs: `handle_backend_messages`, which reads a message of the
-- server and gives it to the manager.
pub mod Safety
pub mod Close
pub mod Batches
use jsonrpseex.Prelude.{
  ℕ, ◌+◌, ◌%◌, ◌==◌, ltb, ◌||◌, Option, none, some, List, [], ◌∷◌, ◌++◌, Bool, true, false,
  if◌then◌else◌, String,
}
use jsonrpseex.Prelude.Decimal.{u64_mod}
use jsonrpseex.Types.Result.{Result, ok, err}
use jsonrpseex.Types.Ids.{SubscriptionId, InvalidRequestId, try_parse_inner_as_number}
use jsonrpseex.Types.Error.{Json}
use jsonrpseex.Client.Manager.{Range}
use jsonrpseex.Client.World.{
  Runtime, RawResponse, World, RequestMessage, Outcome, done, fails, panics, ClientError, custom,
  empty_batch_request, transport,
}
use jsonrpseex.Client.Helpers.{
  process_batch_response, process_subscription_response, process_subscription_close_response,
  process_notification,
}
use jsonrpseex.Client.SingleResponse.{process_single_response, Handled}
use jsonrpseex.Client.Frontend.{FrontToBack, request, subscription_closed}

-- `u8::is_ascii_whitespace`
unfoldable pub is_ascii_whitespace : ℕ → Bool
is_ascii_whitespace b = b == 32 || b == 9 || b == 10 || b == 12 || b == 13

unfoldable pub first_non_whitespace : Json → Option ℕ
unfolding is_ascii_whitespace
first_non_whitespace [] = none
first_non_whitespace (b ∷ raw) = if is_ascii_whitespace b then first_non_whitespace raw else some b

-- `range.get_or_insert(id..id)`, and the two tests that widen it.
unfoldable pub widen : Option Range → ℕ → Range
widen none id = record { start = id; end_ = id }
widen (some r) id = record {
  start = if ltb id r.start then id else r.start;
  end_ = if ltb r.end_ id then id else r.end_;
}

-- The local variables of the loop over a batch, with the world.
pub record Loop (rt : Runtime) : Type 0 where
  pub world : World rt
  pub batch : List RawResponse
  pub range : Option Range
  pub got_notif : Bool
  pub messages : List (FrontToBack rt)

pub data ReceivedMessage : Type 0 where
  text bytes : Json → ReceivedMessage
  pong : ReceivedMessage

-- What the transport's stream yields; the two errors are a failed read and a closed receiver.
pub data Incoming : Type 0 where
  received : ReceivedMessage → Incoming
  read_failed dropped : Incoming

module _ (rt : Runtime) where
  -- What the handler returns: messages for the send task, or the error that ends the connection.
  abbrev pub Answer : Type 0
  Answer = Outcome (List (FrontToBack rt)) × World rt

  unparse_error : Json → ClientError
  unparse_error raw = custom (rt.show_unparsed raw)

  after_single : Handled rt → Answer
  after_single (done none, w) = (done [], w)
  after_single (done (some unsub), w) = (done (request unsub ∷ []), w)
  after_single (fails e, w) = (fails e, w)
  after_single (panics, w) = (panics, w)

  closed_messages : Option SubscriptionId → List (FrontToBack rt)
  closed_messages none = []
  closed_messages (some sid) = subscription_closed sid ∷ []

  after_sub : Option SubscriptionId × World rt → Answer
  unfolding closed_messages
  after_sub (o, w) = (done (closed_messages o), w)

  after_close : Outcome (Unit {0}) × World rt → Answer
  after_close (done _, w) = (done [], w)
  after_close (fails e, w) = (fails e, w)
  after_close (panics, w) = (panics, w)

  -- The readers are tried in this order.
  on_object :
      World rt
      → Json
      → Option RawResponse
      → Option (SubscriptionId × Json)
      → Option SubscriptionId
      → Option (String × Option Json)
      → Answer
  unfolding after_single after_sub after_close unparse_error
  on_object w raw (some r) _ _ _ = after_single (process_single_response rt w r)
  on_object w raw none (some (sid, result)) _ _ =
      after_sub (process_subscription_response rt w sid result)
  on_object w raw none none (some sid) _ =
      after_close (process_subscription_close_response rt w sid)
  on_object w raw none none none (some (method, params)) =
      (done [], process_notification rt w method params)
  on_object w raw none none none none = (fails (unparse_error raw), w)

  -- An element of a batch: the loop goes on, or the handler returns.
  abbrev pub Step : Type 0
  Step = Outcome (Loop rt) × World rt

  push_response : Loop rt → RawResponse → Result InvalidRequestId ℕ → Step
  unfolding widen
  push_response l r (err e) = (fails (ClientError.invalid_request_id e), l.world)
  push_response l r (ok id) =
      (done (record l { batch = l.batch ++ r ∷ []; range = some (widen l.range id) }), l.world)

  push_closed : Loop rt → Option SubscriptionId × World rt → Step
  unfolding closed_messages
  push_closed l (o, w) = (
    done (record l { world = w; got_notif = true; messages = l.messages ++ closed_messages o }),
    w,
  )

  push_close : Loop rt → Outcome (Unit {0}) × World rt → Step
  push_close l (done _, w) = (done (record l { world = w; got_notif = true }), w)
  push_close l (fails e, w) = (fails e, w)
  push_close l (panics, w) = (panics, w)

  on_element :
      Loop rt
      → Json
      → Option RawResponse
      → Option (SubscriptionId × Json)
      → Option SubscriptionId
      → Option (String × Option Json)
      → Step
  unfolding push_response push_closed push_close unparse_error
  on_element l raw (some r) _ _ _ = push_response l r (try_parse_inner_as_number r.id)
  on_element l raw none (some (sid, result)) _ _ =
      push_closed l (process_subscription_response rt l.world sid result)
  on_element l raw none none (some sid) _ =
      push_close l (process_subscription_close_response rt l.world sid)
  on_element l raw none none none (some (method, params)) =
      let w = process_notification rt l.world method params in
      (done (record l { world = w; got_notif = true }), w)
  on_element l raw none none none none = (fails (unparse_error raw), l.world)

  -- `read_sub_error` is given the whole message `raw`, and not the element `r`, as in the source.
  unfoldable pub element : Json → Loop rt → Json → Step
  unfolding on_element
  element raw l r =
      on_element l raw (rt.read_response r) (rt.read_sub_response r) (rt.read_sub_error raw)
        (rt.read_notification r)

  -- The next round of the loop, unless the handler has returned.
  and_then : Step → (Loop rt → Step) → Step
  and_then (done l, w) next = next l
  and_then (fails e, w) next = (fails e, w)
  and_then (panics, w) next = (panics, w)

  unfoldable pub elements : Json → List Json → Loop rt → Step
  unfolding and_then
  elements raw [] l = (done l, l.world)
  elements raw (r ∷ rs) l = and_then (element raw l r) (elements raw rs)

  after_batch : List (FrontToBack rt) → Result InvalidRequestId (Unit {0}) × World rt → Answer
  after_batch messages (ok _, w) = (done messages, w)
  after_batch messages (err e, w) = (fails (ClientError.invalid_request_id e), w)

  -- The end of the range is exclusive, so one is added to it, as a `u64`.
  finish_batch : Loop rt → Option Range → Answer
  unfolding after_batch
  finish_batch l (some range) = after_batch l.messages (
      process_batch_response rt l.world l.batch
        (record range { end_ = (range.end_ + 1) % u64_mod }))
  finish_batch l none =
      if l.got_notif then (done l.messages, l.world) else (fails empty_batch_request, l.world)

  after_elements : Step → Answer
  unfolding finish_batch
  after_elements (done l, w) = finish_batch l l.range
  after_elements (fails e, w) = (fails e, w)
  after_elements (panics, w) = (panics, w)

  on_array : World rt → Json → Option (List Json) → Answer
  unfolding elements after_elements unparse_error
  on_array w raw none = (fails (unparse_error raw), w)
  on_array w raw (some rs) = after_elements (
      elements raw rs
        (record { world = w; batch = []; range = none; got_notif = false; messages = [] }))

  -- The match on the first byte that is no whitespace.
  by_first : World rt → Json → Option ℕ → Answer
  unfolding on_object on_array unparse_error
  by_first w raw none = (fails (unparse_error raw), w)
  by_first w raw (some b) =
      if b == b'{'
      then on_object w raw (rt.read_response raw) (rt.read_sub_response raw) (rt.read_sub_error raw)
          (rt.read_notification raw)
      else if b == b'['
      then on_array w raw (rt.read_array raw)
      else (fails (unparse_error raw), w)

  unfoldable pub handle_recv_message : World rt → Json → Answer
  unfolding first_non_whitespace by_first
  handle_recv_message w raw = by_first w raw (first_non_whitespace raw)

  unfoldable pub handle_backend_messages : Incoming → World rt → Answer
  unfolding handle_recv_message
  handle_backend_messages (received pong) w = (done [], w)
  handle_backend_messages (received (bytes raw)) w = handle_recv_message w raw
  handle_backend_messages (received (text raw)) w = handle_recv_message w raw
  handle_backend_messages read_failed w = (fails transport, w)
  handle_backend_messages dropped w = (fails (custom "TransportReceiver dropped"), w)
