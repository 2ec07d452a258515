-- ===== src/Transport/Follow.antt =====
-- Over any list of intents, the relay of a room follows the intents for that room.
use ccs2_plus.Prelude.{
  ℕ, ◌≡◌, refl, ap, ◌∙◌, inl, inr, ◌&&◌, ◌==◌, eq_iff, String, some, List, [], ◌∷◌, arith,
  if◌then◌else◌, Option-cases, Bool-cases, eq_refl,
}
use ccs2_plus.Legacy.Relays.{relay}
use ccs2_plus.RoomMap.{RoomMapping, MemoryRepository, get_by_room_id}
use ccs2_plus.Transport.{CommandIntent, Service, apply_intent}
use ccs2_plus.Transport.Relays.{
  IsCache, relay_at, wanted, is_known, card_port, card_port-lt, effect, relay_at-apply_intent,
}

pub repo-apply_intent :
    (s : Service) (intent : CommandIntent) (t : ℕ) → (apply_intent s intent t).1.repo ≡ s.repo
unfolding apply_intent
repo-apply_intent s intent t = ground arith

-- The service after a list of intents, each with its time.
unfoldable pub run : Service → List (CommandIntent × ℕ) → Service
run s [] = s
run s ((intent, t) ∷ rest) = run (apply_intent s intent t).1 rest

-- The relay of a room as its intents alone tell it: the last one with a known state counts.
abbrev pub followed : String → ℕ → List (CommandIntent × ℕ) → ℕ
followed room_id relay [] = relay
followed room_id relay ((intent, t) ∷ rest) =
    followed room_id
      (if intent.room_id == room_id && is_known intent.target_state
        then wanted intent.target_state
        else relay)
      rest

-- No other room of the map shares the port.
abbrev pub IsAlone : MemoryRepository → String → RoomMapping → Type 0
IsAlone repo room_id m =
    (k : String) (m' : RoomMapping)
    → get_by_room_id repo k ≡ some m'
    → m'.address ≡ m.address
    → m'.port_index ≡ m.port_index
    → k ≡ room_id

module _ (room_id : String) (m : RoomMapping) (port : ℕ) where
  effect-alone :
      (s : Service) (intent : CommandIntent)
      → get_by_room_id s.repo room_id ≡ some m
      → card_port m.port_index ≡ some port
      → IsAlone s.repo room_id m
      → effect (get_by_room_id s.repo intent.room_id) intent.target_state s.cache m.address port ≡ (
          if intent.room_id == room_id && is_known intent.target_state
          then wanted intent.target_state
          else relay_at s.cache m.address port)
  effect-alone s intent found on alone = elim (Bool-cases (intent.room_id == room_id)) [
    | inl same ↦
        rw ((eq_iff intent.room_id room_id).0 same, found) (ground (arith, eq_refl room_id))
    | inr other ↦ elim (Option-cases (get_by_room_id s.repo intent.room_id)) [
      | inl missing ↦ rw missing (ground arith)
      | inr (m', found') ↦ rw found' (
          ground (
            arith,
            alone intent.room_id m' found',
            eq_iff intent.room_id room_id,
            card_port-lt m.port_index port on,
            card_port-lt m'.port_index port,
          ))
    ]
  ]

  -- From `uint16` payloads and over any list of intents, whatever becomes of the frames, the cached relay of a room on the card
  -- that shares its port with no other room is what the intents for that room alone tell: the last one
  -- with a known state decides.
  pub run_follows :
      (s : Service) (intents : List (CommandIntent × ℕ))
      → IsCache s.cache
      → get_by_room_id s.repo room_id ≡ some m
      → card_port m.port_index ≡ some port
      → IsAlone s.repo room_id m
      → relay_at (run s intents).cache m.address port
        ≡ followed room_id (relay_at s.cache m.address port) intents
  unfolding run
  run_follows s [] valid found on alone = refl
  run_follows s ((intent, t) ∷ rest) valid found on alone =
      run_follows (apply_intent s intent t).1 rest
        (λ a. (relay_at-apply_intent s intent t a 0 valid).1) (rw repo-apply_intent found) on
        (rw repo-apply_intent alone)
      ∙ ap (λ r. followed room_id r rest)
          ((relay_at-apply_intent s intent t m.address port valid).0
            ∙ effect-alone s intent found on alone)
