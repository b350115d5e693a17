-- ===== src/Server/Queue.antt =====
-- tokio's bounded channel of outgoing messages, which a `MethodSink` (core/src/server/helpers.rs)
-- sends on: its operations, and what the server relies on. `send` waits for space.
use jsonrpseex.Prelude.{◌≡◌, List, [], ◌∷◌, ◌++◌, Bool, true, false}
use jsonrpseex.Types.Error.{Json}

pub data TrySend : Type 0 where
  sent_now full_now closed_now : TrySend

pub record Queue : Type 1 where
  pub Channel : Type 0
  pub send : Channel → Json → Bool × Channel
  pub try_send : Channel → Json → TrySend × Channel
  pub is_closed : Channel → Bool
  -- All that was ever put into the channel, in order.
  pub sent : Channel → List Json
  pub send_open :
      (c : Channel) (j : Json)
      → is_closed c ≡ false
      → (send c j).0 ≡ true × sent (send c j).1 ≡ sent c ++ j ∷ []
  pub send_closed :
      (c : Channel) (j : Json)
      → is_closed c ≡ true
      → (send c j).0 ≡ false × sent (send c j).1 ≡ sent c
  pub stays_open : (c : Channel) (j : Json) → is_closed c ≡ false → is_closed (send c j).1 ≡ false
