-- ===== src/Client/Subscription.antt =====
-- core/src/client/mod.rs: `Subscription`, the stream of a subscription's notifications for the
-- application, and how it tells the background task that it is over.
pub mod Closing
pub mod Stream
mod Tests
use jsonrpseex.Prelude.{
  String, Option, none, some, List, [], ◌∷◌, ◌++◌, Bool, true, false, if◌then◌else◌, not, ◌&&◌,
}
use jsonrpseex.Types.Ids.{SubscriptionId}
use jsonrpseex.Types.Error.{Json}
use jsonrpseex.Client.World.{Runtime, Outcome, done, panics}
use jsonrpseex.Client.Frontend.{FrontToBack, subscription_closed, unregister_notification}

pub data SubscriptionKind : Type 0 where
  subscription : SubscriptionId → SubscriptionKind
  method : String → SubscriptionKind

pub data SubscriptionCloseReason : Type 0 where
  connection_closed lagged : SubscriptionCloseReason

-- What a poll of the receiver gives: a notification, the end of the channel, or nothing yet.
pub data Polled (A : Type 0) : Type 0 where
  item : A → Polled A
  ended pending : Polled A

-- `tokio::sync::mpsc::Sender` to the background task, which has taken the messages `taken`: whether
-- its receiver is there, and whether there is room now.
pub record Back (rt : Runtime) : Type 0 where
  pub is_open : List (FrontToBack rt) → Bool
  pub has_room : List (FrontToBack rt) → Bool

module _ (rt : Runtime) (back : Back rt) where
  -- `lagged` is the flag that is shared with the sender. `kind` is there until the subscription is
  -- over.
  pub record Subscription : Type 0 where
    pub is_closed : Bool
    pub taken : List (FrontToBack rt)
    pub lagged : Bool
    pub kind : Option SubscriptionKind

  unfoldable pub new : List (FrontToBack rt) → Bool → SubscriptionKind → Subscription
  new taken flag kind = record { is_closed = false; taken = taken; lagged = flag; kind = some kind }

  -- The message that ends a subscription.
  unfoldable pub closing : SubscriptionKind → FrontToBack rt
  closing (method notif) = unregister_notification notif
  closing (subscription sub_id) = subscription_closed sub_id

  unfoldable pub send : List (FrontToBack rt) → FrontToBack rt → List (FrontToBack rt)
  send taken msg = if back.is_open taken then taken ++ msg ∷ [] else taken

  unfoldable pub try_send : List (FrontToBack rt) → FrontToBack rt → List (FrontToBack rt)
  try_send taken msg =
      if back.is_open taken && back.has_room taken then taken ++ msg ∷ [] else taken

  -- `while self.rx.next().await.is_some() {}`, over what the polls give; false if it still waits.
  unfoldable pub drained : List (Polled Json) → Bool
  drained [] = false
  drained (item j ∷ ps) = drained ps
  drained (ended ∷ ps) = true
  drained (pending ∷ ps) = drained ps

  after_take :
      Option SubscriptionKind → List (Polled Json) → Subscription → Outcome Bool × Subscription
  unfolding closing send drained
  after_take none ps s = (panics, s)
  after_take (some kind) ps s =
      (done (drained ps), record s { kind = none; taken = send s.taken (closing kind) })

  -- Whether it has returned.
  unfoldable pub unsubscribe : List (Polled Json) → Subscription → Outcome Bool × Subscription
  unfolding after_take
  unsubscribe ps s = after_take s.kind ps s

  drop_if : Option SubscriptionKind → Subscription → Subscription
  unfolding closing try_send
  drop_if none s = s
  drop_if (some kind) s = record s { kind = none; taken = try_send s.taken (closing kind) }

  -- `Drop`
  unfoldable pub drop_subscription : Subscription → Subscription
  unfolding drop_if
  drop_subscription s = drop_if s.kind s

  unfoldable pub close_reason : Subscription → Option SubscriptionCloseReason
  close_reason s =
      if not s.is_closed && not s.lagged
      then none
      else if s.lagged
      then some SubscriptionCloseReason.lagged
      else some connection_closed

  -- `from_str` is how serde_json reads a notification, with its error if it cannot.
  module _ {N : Type 0} (from_str : Json → N) where
    -- What the stream yields; its end is `ended`.
    unfoldable pub poll_next : Polled Json → Subscription → Polled N × Subscription
    poll_next (item v) s = (item (from_str v), s)
    poll_next ended s = (ended, record s { is_closed = true })
    poll_next pending s = (pending, s)

    after_poll :
        (Subscription → List N × Subscription) → Polled N × Subscription → List N × Subscription
    after_poll rest (item n, s) = let (ns, s') = rest s in (n ∷ ns, s')
    after_poll rest (ended, s) = ([], s)
    after_poll rest (pending, s) = rest s

    -- `next`, over what the polls give, until there is nothing more: what it has yielded.
    unfoldable pub all_next : List (Polled Json) → Subscription → List N × Subscription
    unfolding poll_next after_poll
    all_next [] s = ([], s)
    all_next (p ∷ ps) s = after_poll (λ s'. all_next ps s') (poll_next p s)
