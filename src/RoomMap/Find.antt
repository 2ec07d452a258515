-- ===== src/RoomMap/Find.antt =====
-- Which mapping a room gets where the list names it several times.
use ccs2_plus.Prelude.{
  String, ◌≡◌, refl, Option, none, some, List, [], ◌∷◌, arith, ◌==◌, eq_iff, if◌then◌else◌, ◌∙◌,
  sym,
}
use ccs2_plus.Prelude.Table.{Table, lookup, insert, lookup-insert}
use ccs2_plus.RoomMap.{RoomMapping, index_rooms, new_memory_repository, get_by_room_id}

-- The last mapping of the list for a room, or `found` where the list has none.
abbrev pub last_for : String → Option RoomMapping → List RoomMapping → Option RoomMapping
last_for room_id found [] = found
last_for room_id found (m ∷ mappings) =
    last_for room_id (if m.room_id == room_id then some m else found) mappings

lookup-index_rooms :
    (room_id : String) (by_room : Table RoomMapping) (mappings : List RoomMapping)
    → lookup room_id (index_rooms by_room mappings)
      ≡ last_for room_id (lookup room_id by_room) mappings
unfolding index_rooms
lookup-index_rooms room_id by_room [] = refl
lookup-index_rooms room_id by_room (m ∷ mappings) =
    lookup-index_rooms room_id (insert m.room_id m by_room) mappings ∙ (rw lookup-insert)

-- The repository knows exactly the rooms of its list, and where a room is listed more than once the
-- last entry counts.
pub get_by_room_id-new :
    (mappings : List RoomMapping) (room_id : String)
    → get_by_room_id (new_memory_repository mappings) room_id ≡ last_for room_id none mappings
unfolding get_by_room_id new_memory_repository lookup
get_by_room_id-new mappings room_id = lookup-index_rooms room_id [] mappings

last_room_id :
    (room_id : String) (m : RoomMapping) (found : Option RoomMapping) (mappings : List RoomMapping)
    → ((k : RoomMapping) → found ≡ some k → k.room_id ≡ room_id)
    → last_for room_id found mappings ≡ some m
    → m.room_id ≡ room_id
last_room_id room_id m found [] ok e = ok m e
last_room_id room_id m found (x ∷ mappings) ok e =
    last_room_id room_id m (if x.room_id == room_id then some x else found) mappings
      (λ k q. ground (arith, eq_iff x.room_id room_id, ok k)) e

-- What the repository returns for a room is a mapping of that room.
pub get_by_room_id-room_id :
    (mappings : List RoomMapping) (room_id : String) (m : RoomMapping)
    → get_by_room_id (new_memory_repository mappings) room_id ≡ some m
    → m.room_id ≡ room_id
get_by_room_id-room_id mappings room_id m h =
    last_room_id room_id m none mappings (λ k e. cc) (sym (get_by_room_id-new mappings room_id) ∙ h)
