-- ===== src/Client/Subscription/Closing.antt =====
-- The end of a client's subscription.
use jsonrpseex.Prelude.{◌≡◌, some, List, [], ◌∷◌, ◌++◌, true, arith, if◌then◌else◌}
use jsonrpseex.Types.Error.{Json}
use jsonrpseex.Client.World.{Runtime, done}
use jsonrpseex.Client.Subscription.{
  SubscriptionKind, Back, Subscription, Polled, unsubscribe, drop_subscription, closing, send,
  try_send, drained,
}

module _ (rt : Runtime) (back : Back rt) where
  -- A subscription that is unsubscribed, and dropped after it, tells the background task once that it
  -- is over, unless the task is gone; that needs room in the channel only if it is dropped without
  -- unsubscribing.
  pub unsubscribe-drop_subscription :
      (s : Subscription rt back) (kind : SubscriptionKind) (ps : List (Polled Json))
      → s.kind ≡ some kind
      → ((unsubscribe rt back ps s).0 ≡ done (drained rt back ps))
        × ((drop_subscription rt back (unsubscribe rt back ps s).1).taken
            ≡ (if back.is_open s.taken then s.taken ++ closing rt back kind ∷ [] else s.taken))
        × (drop_subscription rt back (drop_subscription rt back s) ≡ drop_subscription rt back s)
        × (back.has_room s.taken ≡ true
            → (drop_subscription rt back s).taken
              ≡ (drop_subscription rt back (unsubscribe rt back ps s).1).taken)
  unfolding unsubscribe drop_subscription send try_send
  unsubscribe-drop_subscription s kind ps h =
      (ground (arith, h), ground (arith, h), ground (arith, h), λ r. ground (arith, h, r))
