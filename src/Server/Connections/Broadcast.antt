-- ===== src/Server/Connections/Broadcast.antt =====
-- What a broadcast sends, and to whom.
use jsonrpseex.Prelude.{
  ℕ, suc, ◌≡◌, refl, not, ◌&&◌, Option, none, some, List, [], ◌∷◌, Bool, true, false, length,
  if◌then◌else◌, ℕ_discrete, arith,
}
use jsonrpseex.Prelude.Map
use jsonrpseex.Prelude.Map.{Map, lookup}
use jsonrpseex.Types.Result.{ok}
use jsonrpseex.Types.Error.{Json}
use jsonrpseex.Server.Connections.{
  find_connection, connection_count, send_matching, clean_up, unregister_connection,
  broadcast_filtered,
}

abbrev same : Bool → Bool → Bool
same true b = b
same false b = not b

unfoldable pub among : ℕ → List ℕ → Bool
among k [] = false
among k (id ∷ ids) = let rest = among k ids in elim (ℕ_discrete id k) [ yes _ ↦ true | no _ ↦ rest ]

module _ {Sink : Type 0} where
  clean_up_lem :
      (ids : List ℕ) (m : Map ℕ Sink) (k : ℕ)
      → find_connection (clean_up ids m) k ≡ (if among k ids then none else find_connection m k)
  unfolding clean_up unregister_connection among
  clean_up_lem [] m k = refl
  clean_up_lem (id ∷ ids) m k =
      ground
        (arith, clean_up_lem ids (unregister_connection m id) k, Map.get-remove ℕ_discrete m id k)

-- The ids of the connections are different.
abbrev pub Distinct : {Sink : Type 0} → List (ℕ × Sink) → Type 0
Distinct [] = Unit {0}
Distinct ((id, _) ∷ l) = (lookup ℕ_discrete id l ≡ none) × Distinct l

module _ {Sink : Type 0} (sink_send : Sink → Json → Bool × Sink) (json : Json)
    (filter : ℕ → Bool) where
  -- How many of the connections match the filter, and take the message or do not.
  unfoldable pub answering : Bool → List (ℕ × Sink) → ℕ
  answering takes [] = 0
  answering takes ((id, s) ∷ l) =
      let rest = answering takes l in
      if filter id then if same takes (sink_send s json).0 then suc rest else rest else rest

  -- What becomes of a connection: one that does not match is as before, one that takes the message
  -- stays, and one that does not is gone.
  unfoldable pub remaining : ℕ → Option Sink → Option Sink
  remaining id none = none
  remaining id (some s) =
      if filter id then if (sink_send s json).0 then some (sink_send s json).1 else none else some s

  after : ℕ → Option Sink → Option Sink
  after id none = none
  after id (some s) = if filter id then some (sink_send s json).1 else some s

  fails : ℕ → Option Sink → Bool
  fails id none = false
  fails id (some s) = filter id && not (sink_send s json).0

  counted :
      (l : List (ℕ × Sink))
      → let ((sent, failed), l') = send_matching sink_send filter json l in
        (sent ≡ answering true l) × (length failed ≡ answering false l) × (length l' ≡ length l)
  unfolding send_matching answering
  counted [] = (refl, refl, refl)
  counted ((id, s) ∷ l) =
      let (a, b, c) = counted l in (ground (arith, a), ground (arith, b), ground (arith, c))

  lookup-after :
      (l : List (ℕ × Sink)) (k : ℕ)
      → lookup ℕ_discrete k (send_matching sink_send filter json l).1
        ≡ after k (lookup ℕ_discrete k l)
  unfolding send_matching lookup after
  lookup-after [] k = refl
  lookup-after ((id, s) ∷ l) k = elim (ℕ_discrete id k) [
    | yes e ↦ ground (arith, e, lookup-after l k)
    | no n ↦ ground (arith, n, lookup-after l k)
  ]

  among-fails :
      (l : List (ℕ × Sink)) (k : ℕ)
      → Distinct l
      → among k (send_matching sink_send filter json l).0.1 ≡ fails k (lookup ℕ_discrete k l)
  unfolding send_matching lookup among fails
  among-fails [] k d = refl
  among-fails ((id, s) ∷ l) k (n, d) = elim (ℕ_discrete id k) [
    | yes e ↦ ground (arith, e, n, among-fails l k d)
    | no ne ↦ ground (arith, ne, among-fails l k d)
  ]

  -- A broadcast over connections with different ids sends to each one that matches the filter, counts
  -- those that took the message, and lists those that did not. After the clean-up that it starts,
  -- a connection that does not match is as before, one that took the message is there in its new
  -- state, and one that did not is gone.
  pub broadcast_filtered_lem :
      (m : Map ℕ Sink)
      → Distinct m.entries
      → let (r, m') = broadcast_filtered sink_send m (some json) filter in
        (failed : List ℕ) × (r ≡ ok (answering true m.entries, failed))
        × (length failed ≡ answering false m.entries)
        × (connection_count m' ≡ connection_count m)
        × ((k : ℕ) → find_connection (clean_up failed m') k ≡ remaining k (find_connection m k))
  unfolding broadcast_filtered connection_count remaining after fails Map.get
  broadcast_filtered_lem m d =
      let (a, b, c) = counted m.entries in
      let ((sent, failed), l) = send_matching sink_send filter json m.entries in
      (
        failed,
        ground (arith, a),
        b,
        c,
        λ k. ground (
          arith,
          clean_up_lem failed (record { entries = l }) k,
          lookup-after m.entries k,
          among-fails m.entries k d,
        ),
      )
