-- ===== src/Client/Subscription/Tests.antt =====
-- Runs of a client's subscription on small inputs.
use jsonrpseex.Prelude.{◌≡◌, refl, some, List, [], ◌∷◌, length, ltb, true, false}
use jsonrpseex.Types.Ids.{num}
use jsonrpseex.Types.Error.{Json}
use jsonrpseex.Client.World.{done}
use jsonrpseex.Client.Fixtures.{rt0, raw0}
use jsonrpseex.Client.Subscription.{
  Back, Subscription, SubscriptionKind, Polled, item, ended, pending, unsubscribe,
  drop_subscription, closing, drained,
}
use jsonrpseex.Client.Subscription.Closing.{unsubscribe-drop_subscription}

-- The channel to the background task has room for two messages.
abbrev back0 : Back rt0
back0 = record { is_open = λ taken. true; has_room = λ taken. ltb (length taken) 2 }

abbrev kind0 : SubscriptionKind
kind0 = SubscriptionKind.subscription (num 5)

abbrev subscription0 : Subscription rt0 back0
subscription0 = record { is_closed = false; taken = []; lagged = false; kind = some kind0 }

abbrev polls0 : List (Polled Json)
polls0 = pending ∷ item raw0 ∷ ended ∷ []

unsubscribe-drop_subscription_example :
    ((unsubscribe rt0 back0 polls0 subscription0).0 ≡ done (drained rt0 back0 polls0))
    × ((drop_subscription rt0 back0 (unsubscribe rt0 back0 polls0 subscription0).1).taken
        ≡ closing rt0 back0 kind0 ∷ [])
    × (drop_subscription rt0 back0 (drop_subscription rt0 back0 subscription0)
        ≡ drop_subscription rt0 back0 subscription0)
    × (ltb (length subscription0.taken) 2 ≡ true
        → (drop_subscription rt0 back0 subscription0).taken
          ≡ (drop_subscription rt0 back0 (unsubscribe rt0 back0 polls0 subscription0).1).taken)
unsubscribe-drop_subscription_example =
    unsubscribe-drop_subscription rt0 back0 subscription0 kind0 polls0 refl
