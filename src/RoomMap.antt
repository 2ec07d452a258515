-- ===== src/RoomMap.antt =====
-- go-backend/internal/roommap/roommap.go: the mapping of rooms to cards and ports, in memory.
pub mod Find
use ccs2_plus.Prelude.{ℕ, String, Option, List, [], ◌∷◌}
use ccs2_plus.Prelude.Int.{ℤ}
use ccs2_plus.Prelude.Table.{Table, lookup, insert}

pub record RoomMapping : Type 0 where
  pub room_id : String
  pub controller_id : String
  pub address : ℕ  -- byte
  pub card_index : ℕ  -- byte
  pub port_index : ℤ  -- int

pub record MemoryRepository : Type 0 where
  pub by_room : Table RoomMapping
  pub list : List RoomMapping

-- The loop of `NewMemoryRepository`.
index_rooms : Table RoomMapping → List RoomMapping → Table RoomMapping
index_rooms by_room [] = by_room
index_rooms by_room (m ∷ mappings) = index_rooms (insert m.room_id m by_room) mappings

unfoldable pub new_memory_repository : List RoomMapping → MemoryRepository
unfolding index_rooms
new_memory_repository mappings = record { by_room = index_rooms [] mappings; list = mappings }

unfoldable pub get_by_room_id : MemoryRepository → String → Option RoomMapping
get_by_room_id r room_id = lookup room_id r.by_room

-- `List` copies the slice; values have no identity here, so the copy is the list.
unfoldable pub list_rooms : MemoryRepository → List RoomMapping
list_rooms r = r.list
