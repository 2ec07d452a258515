-- ===== src/StateStore/Views.antt =====
-- What the state shows to clients: `list`, `snapshot`, the payload of the full state (`handleState`
-- builds the same) and that of a room update.
use Prim.Native.String.{compare}
use Prim.Native.Nat.{Ordering}
use ccs2_plus.Prelude.{
  ℕ, ◌+◌, String, Bool, true, false, Option, none, some, List, [], ◌∷◌, map, if◌then◌else◌,
}
use ccs2_plus.Prelude.Int.{pos, ltb_ℤ}
use ccs2_plus.Prelude.Table.{Table, lookup, insert}
use ccs2_plus.StateStore.{RoomState, RoomSnapshot, StateStore, get}

-- `a < b` on strings.
abbrev pub text_before : String → String → Bool
text_before a b = elim (compare a b) [ Ordering.lt ↦ true | _ ↦ false ]

module _ {A : Type 0} where
  -- One room put in its place: behind the rooms whose id comes first.
  unfoldable pub place : RoomState A → List (RoomState A) → List (RoomState A)
  place room [] = room ∷ []
  place room (r ∷ rooms) =
      let rest = place room rooms in
      if text_before r.room_id room.room_id then r ∷ rest else room ∷ r ∷ rooms

  -- `sort.Slice` by the room id.
  unfoldable pub sort_rooms : Table (RoomState A) → List (RoomState A)
  unfolding place
  sort_rooms [] = []
  sort_rooms ((k, room) ∷ rooms) = place room (sort_rooms rooms)

  unfoldable pub list : StateStore A → List (RoomState A)
  unfolding sort_rooms
  list s = sort_rooms s.rooms

  unfoldable pub snapshot : RoomState A → RoomSnapshot
  snapshot r = record {
    room_id = r.room_id;
    floor = r.floor;
    status = r.status;
    stay_mode = r.stay_mode;
    case_code = r.case_code;
    controller_online = r.controller_online;
    remaining_minutes =
        if ltb_ℤ (pos 0) r.remaining_minutes then some r.remaining_minutes else none;
  }

abbrev pub no_summary : Table ℕ
no_summary = ("vacant", 0) ∷ ("occupied", 0) ∷ ("cleaning", 0) ∷ ("overstay", 0) ∷ ("dnd", 0) ∷ []

-- A missing key of a Go map reads as 0.
abbrev pub tally : String → Table ℕ → ℕ
tally status summary = elim (lookup status summary) [ none ↦ 0 | some n ↦ n ]

pub record FullState : Type 0 where
  pub rooms : List RoomSnapshot
  pub summary : Table ℕ

pub record RoomUpdate : Type 0 where
  pub room : RoomSnapshot
  pub request_id : String
  pub action : String
  pub updated_at : ℕ

-- The payload of a room that is not known carries no more than the request.
pub data RoomUpdatePayload : Type 0 where
  known : RoomUpdate → RoomUpdatePayload
  unknown : String → String → String → RoomUpdatePayload

module _ {A : Type 0} where
  -- `summary[item.Status]++` for each room.
  unfoldable pub summarise : Table ℕ → List (RoomState A) → Table ℕ
  summarise summary [] = summary
  summarise summary (item ∷ items) =
      summarise (insert item.status (tally item.status summary + 1) summary) items

  unfoldable pub full_state_payload : StateStore A → FullState
  unfolding list summarise snapshot
  full_state_payload s = record {
    rooms = map snapshot (list s);
    summary = summarise no_summary (list s);
  }

  update_payload : String → String → String → Option (RoomState A) → RoomUpdatePayload
  unfolding snapshot
  update_payload room_id request_id action none = unknown room_id request_id action
  update_payload room_id request_id action (some room) = known (record {
    room = snapshot room;
    request_id = request_id;
    action = action;
    updated_at = room.updated_at;
  })

  unfoldable pub room_update_payload : StateStore A → String → String → String → RoomUpdatePayload
  unfolding get update_payload
  room_update_payload s room_id request_id action =
      update_payload room_id request_id action (get s room_id)
