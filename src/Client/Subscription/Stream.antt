-- ===== src/Client/Subscription/Stream.antt =====
-- What the application sees of a subscription.
use jsonrpseex.Prelude.{
  ◌≡◌, refl, arith, none, some, List, [], ◌∷◌, ◌++◌, map, false, if◌then◌else◌,
}
use jsonrpseex.Types.Error.{Json}
use jsonrpseex.Client.World.{Runtime}
use jsonrpseex.Client.Subscription.{
  Back, Subscription, Polled, item, ended, all_next, close_reason, SubscriptionCloseReason,
  connection_closed,
}

module _ (rt : Runtime) (back : Back rt) {N : Type 0} (from_str : Json → N) where
  -- A stream that is polled yields the notifications in their order up to the end of the channel,
  -- and nothing after it. Then there is a reason for the close, which is the lagging if a
  -- notification was dropped and else the end of the connection; before, there is none unless a
  -- notification was dropped.
  pub all_next-close_reason :
      (js : List Json) (later : List (Polled Json)) (s : Subscription rt back)
      → s.is_closed ≡ false
      → let (ns, s') = all_next rt back from_str (map item js ++ ended ∷ later) s in
        (ns ≡ map from_str js)
        × (close_reason rt back s
            ≡ (if s.lagged then some SubscriptionCloseReason.lagged else none))
        × (close_reason rt back s'
            ≡ some (if s.lagged then SubscriptionCloseReason.lagged else connection_closed))
  unfolding all_next close_reason
  all_next-close_reason [] later s h = (refl, ground (arith, h), ground arith)
  all_next-close_reason (j ∷ js) later s h =
      let r = all_next-close_reason js later s h in (ground (arith, r.0), r.1, r.2)
