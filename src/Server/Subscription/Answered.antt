-- ===== src/Server/Subscription/Answered.antt =====
-- core/src/server/subscription.rs with server/src/transport/ws.rs: what the wire sees of a
-- subscribe call.
use jsonrpseex.Prelude.{◌≡◌, refl, true, false, [], ◌∷◌, ◌++◌, ℕ, arith}
use jsonrpseex.Types.Error
use jsonrpseex.Types.Error.{ErrorObject, ErrorCode, Json}
use jsonrpseex.Server.Runtime.{Runtime}
use jsonrpseex.Server.Response.Kind.{MethodResponseResult, failed}
use jsonrpseex.Server.Response.{error_json}
use jsonrpseex.Server.Queue.{Queue}
use jsonrpseex.Server.Subscription.{
  PendingSubscriptionSink, Writers, Shared, Answer, accept, enter, accept_response, reject,
  subscribe_response,
}
use jsonrpseex.Server.Websocket.Message.{Handling, Place, send_reply}

-- What the application does with a pending subscription.
pub data Decision : Type 0 where
  accept_it drop_it : Decision
  reject_it : ErrorObject → Decision

module _ (rt : Runtime) (w : Writers) (q : Queue) where
  -- The subscribe call still waits for its answer.
  unfoldable pub decide :
      Decision → PendingSubscriptionSink → ℕ → Shared rt w q → Answer rt × Shared rt w q
  unfolding accept reject
  decide accept_it p max sh =
      let ((out, answer), sh') = accept rt w q true p max sh in (answer, sh')
  decide drop_it p max sh = (Answer.dropped, sh)
  decide (reject_it e) p max sh = reject rt w q true p e sh

  -- The decision, the end of the subscribe call, and the transport's reply to the call.
  queue_place : Place q.Channel (Shared rt w q)
  queue_place = record {
    get = λ sh. sh.queue;
    put = λ c sh. record sh { queue = c };
    get_put = λ c sh. refl;
    put_get = λ sh. refl;
  }

  unfoldable pub subscribe_call :
      Decision → PendingSubscriptionSink → ℕ → rt.Ext → Shared rt w q → Handling rt (Shared rt w q)
  unfolding queue_place decide subscribe_response send_reply
  subscribe_call d p max ext sh =
      let (answer, sh') = decide d p max sh in
      send_reply rt q queue_place (subscribe_response rt w q p.id ext answer)
        (record { state = sh'; notified = [] })

  -- The text that the decision calls for.
  unfoldable pub expected : Decision → PendingSubscriptionSink → ℕ → Json
  unfolding accept_response error_json Error.from_error_code
  expected accept_it p max = (accept_response rt w q p max).json
  expected drop_it p max = error_json rt p.id (Error.from_error_code ErrorCode.internal_error)
  expected (reject_it e) p max = error_json rt p.id e

  enter-queue :
      (p : PendingSubscriptionSink) (r : MethodResponseResult) (sh : Shared rt w q)
      → (enter rt w q p r sh).1.queue ≡ sh.queue
  unfolding enter
  enter-queue p MethodResponseResult.success sh = refl
  enter-queue p (failed c) sh = refl

  -- On an open connection whose subscribe call still waits, the call is answered by exactly one
  -- message, whether the subscription is accepted, rejected or dropped: the queue gets the text that
  -- the decision calls for, once, and nothing else.
  pub subscribe_call_answered :
      (d : Decision) (p : PendingSubscriptionSink) (max : ℕ) (ext : rt.Ext) (sh : Shared rt w q)
      → q.is_closed sh.queue ≡ false
      → q.sent (subscribe_call d p max ext sh).state.queue
        ≡ q.sent sh.queue ++ expected d p max ∷ []
  unfolding subscribe_call expected decide accept reject
  subscribe_call_answered accept_it p max ext sh h =
      ground (arith, q.send_open sh.queue (expected accept_it p max) h, enter-queue p)
  subscribe_call_answered drop_it p max ext sh h =
      ground (arith, q.send_open sh.queue (expected drop_it p max) h)
  subscribe_call_answered (reject_it e) p max ext sh h =
      ground (arith, q.send_open sh.queue (expected (reject_it e) p max) h)
