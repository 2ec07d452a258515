-- ===== src/StateStore/Fresh.antt =====
-- Which rooms the table of the rooms has, through the updates and from the start.
use ccs2_plus.Prelude.{
  ℕ, ◌+◌, ◌≡◌, refl, String, Bool, true, false, ◌==◌, eq_refl, some, List, [], ◌∷◌, All,
}
use ccs2_plus.Prelude.Float.{Float64}
use ccs2_plus.Prelude.Table.{Table, lookup, insert, lookup-insert}
use ccs2_plus.RoomMap.{RoomMapping}
use ccs2_plus.StateStore.{RoomState, StateStore, get, fresh_room, fill_rooms, new_state_store}

module _ {A : Type 0} where
  -- The table has a room for the key.
  abbrev pub Has : String → Table (RoomState A) → Type 0
  Has key rooms = (room : RoomState A) × (lookup key rooms ≡ some room)

  pub Has-insert :
      (key other : String) (room : RoomState A) (rooms : Table (RoomState A))
      → Has other rooms
      → Has other (insert key room rooms)
  Has-insert key other room rooms (old, e) = by_test (key == other) refl
    where
      by_test : (b : Bool) → (key == other) ≡ b → Has other (insert key room rooms)
      by_test true same = (room, rw (lookup-insert, same) refl)
      by_test false same = (old, rw (lookup-insert, same) e)

  Has-inserted :
      (key : String) (room : RoomState A) (rooms : Table (RoomState A))
      → Has key (insert key room rooms)
  Has-inserted key room rooms = (room, rw (lookup-insert, eq_refl key) refl)

  -- Every room of the mappings is in memory.
  abbrev pub KnowsRooms : List RoomMapping → StateStore A → Type 0
  KnowsRooms mappings s =
      All (λ (m : RoomMapping). (room : RoomState A) × (get s m.room_id ≡ some room)) mappings

module _ {A : Type 0} ⦃f : Float64 A⦄ where
  Has-fill_rooms :
      (key : String) (mappings : List RoomMapping) (clock : ℕ → ℕ) (i : ℕ)
      (rooms : Table (RoomState A))
      → Has key rooms
      → Has key (fill_rooms rooms mappings clock i)
  unfolding fill_rooms
  Has-fill_rooms key [] clock i rooms h = h
  Has-fill_rooms key (m ∷ mappings) clock i rooms h =
      Has-fill_rooms key mappings clock (i + 1) (insert m.room_id (fresh_room m (clock i)) rooms)
        (Has-insert m.room_id key (fresh_room m (clock i)) rooms h)

  All-fill_rooms :
      (mappings : List RoomMapping) (clock : ℕ → ℕ) (i : ℕ) (rooms : Table (RoomState A))
      → All (λ (m : RoomMapping). Has m.room_id (fill_rooms rooms mappings clock i)) mappings
  unfolding fill_rooms
  All-fill_rooms [] clock i rooms = tt
  All-fill_rooms (m ∷ mappings) clock i rooms =
      let added = insert m.room_id (fresh_room m (clock i)) rooms in
      (
        Has-fill_rooms m.room_id mappings clock (i + 1) added
            (Has-inserted m.room_id (fresh_room m (clock i)) rooms),
        All-fill_rooms mappings clock (i + 1) added,
      )

pub new_state_store-KnowsRooms :
    (A : Type 0) ⦃f : Float64 A⦄ (mappings : List RoomMapping) (clock : ℕ → ℕ)
    → KnowsRooms {A = A} mappings (new_state_store mappings clock)
unfolding new_state_store get
new_state_store-KnowsRooms A mappings clock = All-fill_rooms mappings clock 0 []
