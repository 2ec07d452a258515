-- ===== src/Server/Restart.antt =====
-- A restart: the rooms are seeded from the mappings (seedRooms of go-backend/internal/store/store.go),
-- and then the state in memory is read from the database (newStateStoreFromStore).
use ccs2_plus.Prelude.{
  ℕ, ◌≡◌, refl, ap, ◌∙◌, sym, String, Bool, true, false, ◌||◌, none, some, List, [], ◌∷◌, ◌==◌,
  eq_iff, eq_refl, arith, All, All-map, if◌then◌else◌, Bool-cases, inl, inr,
}
use mathlib.Core.Path.{subst}
use ccs2_plus.Prelude.Float.{Float64}
use ccs2_plus.RoomMap.{RoomMapping}
use ccs2_plus.StateStore.{RoomState, StateStore, get}
use ccs2_plus.Database
use ccs2_plus.Database.{
  Time, TimeText, format, Collation, RoomRow, Db, Conn, Result, Outcome, done, failed,
}
use ccs2_plus.Database.Statements.{has_room}
use ccs2_plus.Database.Atomic.{Settled}
use ccs2_plus.Database.Seed.{
  remapped, seed_row, seed_rows, seed_tables, seed_rooms, seed_rooms-Settled, open_store,
  open_store-seed_rooms,
}
use ccs2_plus.Server.Restore.{new_state_store_from_store}
use ccs2_plus.Server.Fits.{DistinctRooms}
use ccs2_plus.Server.Start.{Held, new_state_store_from_store-Held}

module _ {A : Type 0} ⦃f : Float64 A⦄ where
  has_room-seed_row :
      (key : String) (m : RoomMapping) (now : TimeText) (rows : List (RoomRow A))
      → has_room key (seed_row m now rows) ≡ (m.room_id == key || has_room key rows)
  unfolding has_room seed_row
  has_room-seed_row key m now [] = refl
  has_room-seed_row key m now (row ∷ rows) = ground (
    arith,
    has_room-seed_row key m now rows,
    eq_iff row.room_id m.room_id,
    eq_iff row.room_id key,
    eq_iff m.room_id key,
  )

  DistinctRooms-seed_row :
      (m : RoomMapping) (now : TimeText) (rows : List (RoomRow A))
      → DistinctRooms rows
      → DistinctRooms (seed_row m now rows)
  unfolding seed_row has_room
  DistinctRooms-seed_row m now [] d = (refl, tt)
  DistinctRooms-seed_row m now (row ∷ rows) d =
      by_test (row.room_id == m.room_id) refl (DistinctRooms-seed_row m now rows d.1)
    where
      by_test :
          (b : Bool)
          → (row.room_id == m.room_id) ≡ b
          → DistinctRooms (seed_row m now rows)
          → DistinctRooms (if b then remapped m row ∷ rows else row ∷ seed_row m now rows)
      by_test true e rest = d
      by_test false e rest = (
        ground (
          arith,
          has_room-seed_row row.room_id m now rows,
          eq_iff row.room_id m.room_id,
          eq_iff m.room_id row.room_id,
        ),
        rest,
      )

  -- What holds of every row after the seeding, and is not about the columns of a mapping, holds of
  -- every row from before.
  All-seed_row :
      (P : RoomRow A → Type 0) (m : RoomMapping) (now : TimeText) (rows : List (RoomRow A))
      → ((row : RoomRow A) → P (remapped m row) → P row)
      → All P (seed_row m now rows)
      → All P rows
  unfolding seed_row
  All-seed_row P m now [] h ps = tt
  All-seed_row P m now (row ∷ rows) h ps =
      by_test (row.room_id == m.room_id) ps (λ rest. All-seed_row P m now rows h rest)
    where
      by_test :
          (b : Bool)
          → All P (if b then remapped m row ∷ rows else row ∷ seed_row m now rows)
          → (All P (seed_row m now rows) → All P rows)
          → All P (row ∷ rows)
      by_test true (p, rest) back = (h row p, rest)
      by_test false (p, rest) back = (p, back rest)

  DistinctRooms-seed_rows :
      (now : TimeText) (mappings : List RoomMapping) (rows : List (RoomRow A))
      → DistinctRooms rows
      → DistinctRooms (seed_rows now mappings rows)
  unfolding seed_rows
  DistinctRooms-seed_rows now [] rows d = d
  DistinctRooms-seed_rows now (m ∷ mappings) rows d =
      DistinctRooms-seed_rows now mappings (seed_row m now rows)
        (DistinctRooms-seed_row m now rows d)

  All-seed_rows :
      (P : RoomRow A → Type 0) (now : TimeText) (mappings : List RoomMapping)
      (rows : List (RoomRow A))
      → ((m : RoomMapping) (row : RoomRow A) → P (remapped m row) → P row)
      → All P (seed_rows now mappings rows)
      → All P rows
  unfolding seed_rows
  All-seed_rows P now [] rows h ps = ps
  All-seed_rows P now (m ∷ mappings) rows h ps =
      All-seed_row P m now rows (h m) (All-seed_rows P now mappings (seed_row m now rows) h ps)

  has_room-seed_rows :
      (key : String) (now : TimeText) (mappings : List RoomMapping) (rows : List (RoomRow A))
      → has_room key rows ≡ true
      → has_room key (seed_rows now mappings rows) ≡ true
  unfolding seed_rows
  has_room-seed_rows key now [] rows h = h
  has_room-seed_rows key now (m ∷ mappings) rows h =
      has_room-seed_rows key now mappings (seed_row m now rows)
        (ground (arith, has_room-seed_row key m now rows))

  -- Every room of the mappings has a row.
  All-has_room :
      (now : TimeText) (mappings : List RoomMapping) (rows : List (RoomRow A))
      → All (λ (m : RoomMapping). has_room m.room_id (seed_rows now mappings rows) ≡ true) mappings
  unfolding seed_rows
  All-has_room now [] rows = tt
  All-has_room now (m ∷ mappings) rows = (
    has_room-seed_rows m.room_id now mappings (seed_row m now rows)
        (ground (arith, has_room-seed_row m.room_id m now rows, eq_refl m.room_id)),
    All-has_room now mappings (seed_row m now rows),
  )

  Held-has_room :
      (s : StateStore A) (key : String) (rows : List (RoomRow A))
      → All (Held s) rows
      → has_room key rows ≡ true
      → (room : RoomState A) × (get s key ≡ some room)
  unfolding has_room
  Held-has_room s key [] h e = cc
  Held-has_room s key (row ∷ rows) (h, hs) e = elim (Bool-cases (row.room_id == key)) [
    | inl same ↦
        let k : row.room_id ≡ key = ground (arith, eq_iff row.room_id key) in
        (h.0, subst (λ k. get s k ≡ some h.0) k h.1)
    | inr other ↦ Held-has_room s key rows hs (ground arith)
  ]

abbrev rooms_of : {A : Type 0} → Outcome A Unit → List (RoomRow A)
rooms_of (done r db) = db.rooms
rooms_of (failed cause) = []

module _ {A : Type 0} ⦃f : Float64 A⦄ ⦃o : Collation⦄ where
  seeded-Held :
      (mappings : List RoomMapping) (now : Time) (clock : ℕ → ℕ) (c seeded d : Conn A)
      (state : StateStore A)
      → c.pending ≡ none
      → DistinctRooms c.committed.rooms
      → seed_rooms mappings now c ≡ (Database.ok tt, seeded)
      → new_state_store_from_store mappings clock seeded ≡ (Database.ok state, d)
      → All (Held state) c.committed.rooms
        × All
            (λ (m : RoomMapping). (room : RoomState A) × (get state m.room_id ≡ some room))
            mappings
  seeded-Held mappings now clock c seeded d state free distinct seeding start =
      let rows = c.committed.rooms in
      let rows' = seed_rows (format now) mappings rows in
      let settled : Settled (seed_tables (format now) mappings c.committed) c
          (Database.ok tt, seeded) =
        subst (Settled (seed_tables (format now) mappings c.committed) c) seeding
          (seed_rooms-Settled mappings now c free) in
      let same : rows' ≡ seeded.committed.rooms = ap rooms_of settled.0 in
      let held =
        new_state_store_from_store-Held mappings clock seeded d state
          (subst DistinctRooms same (DistinctRooms-seed_rows (format now) mappings rows distinct))
          start in
      let held' : All (Held state) rows' = subst (All (Held state)) (sym same) held in
      (
        All-seed_rows (Held state) (format now) mappings rows (λ m. λ row. λ h. h) held',
        All-map (λ (m : RoomMapping). has_room m.room_id rows' ≡ true) _ mappings
            (λ m. λ h. Held-has_room state m.room_id rows' held' h)
            (All-has_room (format now) mappings rows),
      )

  -- Where the ids of the rooms are distinct and no transaction is open, after an Open with any mappings
  -- and a start that reads the database, both without an error, every room that had a row before is in
  -- memory with the status, stay mode, case and minutes of that row, and every room of the mappings is
  -- in memory.
  pub restart-Held :
      (made opened : Bool) (mappings : List RoomMapping) (now : Time) (clock : ℕ → ℕ)
      (c seeded d : Conn A) (state : StateStore A)
      → c.pending ≡ none
      → DistinctRooms c.committed.rooms
      → open_store made opened mappings now c ≡ (Database.ok tt, seeded)
      → new_state_store_from_store mappings clock seeded ≡ (Database.ok state, d)
      → All (Held state) c.committed.rooms
        × All
            (λ (m : RoomMapping). (room : RoomState A) × (get state m.room_id ≡ some room))
            mappings
  restart-Held made opened mappings now clock c seeded d state free distinct opening start =
      let (c', (tables, pending), seeding) =
        open_store-seed_rooms made opened mappings now c seeded opening in
      let held =
        seeded-Held mappings now clock c' seeded d state (pending ∙ free)
          (subst (λ db. DistinctRooms db.rooms) (sym tables) distinct) seeding start in
      (subst (λ db. All (Held state) db.rooms) tables held.0, held.1)
