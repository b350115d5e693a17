-- ===== src/Server/Connections.antt =====
-- server/src/connection_manager.rs: the connections that notifications are sent to.
pub mod Broadcast
use jsonrpseex.Prelude.{
  ℕ, suc, Option, none, some, List, [], ◌∷◌, Bool, true, false, length, if◌then◌else◌, ℕ_discrete,
}
use jsonrpseex.Prelude.Map
use jsonrpseex.Prelude.Map.{Map}
use jsonrpseex.Types.Result.{Result, ok, err}
use jsonrpseex.Types.Error.{Json}

pub data NotificationError : Type 0 where
  connection_not_found : ℕ → NotificationError
  connection_closed serialization : NotificationError

-- `ConnectionStats`
pub record ConnectionStats : Type 0 where
  pub total_connections : ℕ
  pub active_connections : List ℕ

-- A connection id is its number. `sink_send` is the send of a method sink, which waits for space and
-- fails if the connection is closed; a sink is the sending half of tokio's channel in its state.
module _ {Sink : Type 0} where
  abbrev pub find_connection : Map ℕ Sink → ℕ → Option Sink
  find_connection = Map.get ℕ_discrete

  unfoldable pub register_connection : Map ℕ Sink → ℕ → Sink → Map ℕ Sink
  register_connection = Map.insert ℕ_discrete

  unfoldable pub unregister_connection : Map ℕ Sink → ℕ → Map ℕ Sink
  unregister_connection = Map.remove ℕ_discrete

  unfoldable pub is_connection_active : Map ℕ Sink → ℕ → Bool
  is_connection_active m id = elim (find_connection m id) [ none ↦ false | some _ ↦ true ]

  unfoldable pub connection_count : Map ℕ Sink → ℕ
  connection_count m = length m.entries

  ids_of : List (ℕ × Sink) → List ℕ
  ids_of [] = []
  ids_of ((id, _) ∷ l) = id ∷ ids_of l

  unfoldable pub get_stats : Map ℕ Sink → ConnectionStats
  unfolding ids_of
  get_stats m = record {
    total_connections = length m.entries;
    active_connections = ids_of m.entries;
  }

  -- The background task that a broadcast starts for the connections that failed.
  unfoldable pub clean_up : List ℕ → Map ℕ Sink → Map ℕ Sink
  unfolding unregister_connection
  clean_up [] m = m
  clean_up (id ∷ ids) m = clean_up ids (unregister_connection m id)

  module _ (sink_send : Sink → Json → Bool × Sink) where
    after_send : Map ℕ Sink → ℕ → Bool × Sink → Result NotificationError (Unit {0}) × Map ℕ Sink
    after_send m id (true, s) = (ok tt, Map.insert ℕ_discrete m id s)
    after_send m id (false, s) = (err connection_closed, Map.insert ℕ_discrete m id s)

    -- The sink stays in its entry, in its new state.
    unfoldable pub send_to :
        Map ℕ Sink → ℕ → Json → Option Sink → Result NotificationError (Unit {0}) × Map ℕ Sink
    unfolding after_send
    send_to m id json none = (err (connection_not_found id), m)
    send_to m id json (some s) = after_send m id (sink_send s json)

    serialized :
        Map ℕ Sink → ℕ → Sink → Option Json → Result NotificationError (Unit {0}) × Map ℕ Sink
    unfolding send_to
    serialized m id s none = (err serialization, m)
    serialized m id s (some json) = send_to m id json (some s)

    -- `json` is the notification as serde_json writes it, if it can.
    unfoldable pub send_notification :
        Map ℕ Sink → ℕ → Option Json → Result NotificationError (Unit {0}) × Map ℕ Sink
    unfolding serialized
    send_notification m id json = elim (find_connection m id) [
      | none ↦ (err (connection_not_found id), m)
      | some s ↦ serialized m id s json
    ]

    -- The loop over the ids; an id may stand there more than once.
    unfoldable pub send_each :
        Map ℕ Sink → List ℕ → Json → List (Result NotificationError (Unit {0})) × Map ℕ Sink
    unfolding send_to
    send_each m [] json = ([], m)
    send_each m (id ∷ ids) json =
        let (r, m1) = send_to m id json (find_connection m id) in
        let (rs, m2) = send_each m1 ids json in (r ∷ rs, m2)

    unfoldable pub send_to_connections :
        Map ℕ Sink
        → List ℕ
        → Option Json
        → Result NotificationError (List (Result NotificationError (Unit {0}))) × Map ℕ Sink
    unfolding send_each
    send_to_connections m ids none = (err serialization, m)
    send_to_connections m ids (some json) = let (rs, m') = send_each m ids json in (ok rs, m')

    -- The loop over the connections: how many the notification was sent to, which failed, and the
    -- connections.
    unfoldable pub send_matching :
        (ℕ → Bool) → Json → List (ℕ × Sink) → (ℕ × List ℕ) × List (ℕ × Sink)
    send_matching filter json [] = ((0, []), [])
    send_matching filter json ((id, s) ∷ l) =
        let ((sent, failed), l') = send_matching filter json l in
        let (sent_now, s') = sink_send s json in
        if filter id
        then if sent_now
          then ((suc sent, failed), (id, s') ∷ l')
          else ((sent, id ∷ failed), (id, s') ∷ l')
        else ((sent, failed), (id, s) ∷ l')

    -- The number of connections that were sent to, those that failed, which `clean_up` is run with
    -- later, and the connections.
    unfoldable pub broadcast_filtered :
        Map ℕ Sink → Option Json → (ℕ → Bool) → Result NotificationError (ℕ × List ℕ) × Map ℕ Sink
    unfolding send_matching
    broadcast_filtered m none filter = (err serialization, m)
    broadcast_filtered m (some json) filter =
        let (r, l) = send_matching filter json m.entries in (ok r, record { entries = l })

    unfoldable pub broadcast_notification :
        Map ℕ Sink → Option Json → Result NotificationError (ℕ × List ℕ) × Map ℕ Sink
    unfolding broadcast_filtered
    broadcast_notification m json = broadcast_filtered m json (λ id. true)
