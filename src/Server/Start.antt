-- ===== src/Server/Start.antt =====
-- After a start the rooms in memory agree with those of the database.
use ccs2_plus.Prelude.{
  ℕ, ◌≡◌, refl, ap, ◌∙◌, String, true, Option, none, some, List, [], ◌∷◌, eq_refl, arith, All,
  All-map,
}
use ccs2_plus.Prelude.Float.{Float64}
use ccs2_plus.Prelude.Table.{lookup}
use ccs2_plus.RoomMap.{RoomMapping}
use ccs2_plus.StateStore.{RoomState, StateStore, get, new_state_store}
use ccs2_plus.Database
use ccs2_plus.Database.{Collation, RoomRow, Conn, Result, parse, next_fault, drawn}
use ccs2_plus.Database.Statements.{has_room}
use ccs2_plus.Database.Reads.{
  RoomRecord, AuditRecord, sort_rows, scan_rooms, scanned, list_rooms, list_recent_audit,
  with_audits, with_rooms, bootstrap,
}
use ccs2_plus.Server.Agreement.{Agrees, Mirrored, Mirrors}
use ccs2_plus.Server.Restore.{restore_rooms, restored, new_state_store_from_store}
use ccs2_plus.Server.Fits.{
  DistinctRooms, Fits, SelfFits, All-sort_rows, has_room-sort_rows, scan_rooms-RecordFits,
  restore_rooms-Fits, All-SelfFits,
}

module _ {A : Type 0} where
  -- A row of the table is there by its id, and what fits the table agrees with it.
  abbrev IsRow : List (RoomRow A) → RoomRow A → Type 0
  IsRow all row =
      (has_room row.room_id all ≡ true)
      × ((key : String) (room : RoomState A)
          → Fits all key room
          → row.room_id ≡ key
          → Agrees room row)

  All-IsRow : (rows : List (RoomRow A)) → All (IsRow rows) rows
  unfolding has_room
  All-IsRow [] = tt
  All-IsRow (row ∷ rows) = (
    (ground (arith, eq_refl row.room_id), λ key room fits e. fits.0 e),
    All-map (IsRow rows) (IsRow (row ∷ rows)) rows
        (λ r m. (ground (arith, m.0), λ key room fits e. m.1 key room fits.1 e)) (All-IsRow rows),
  )

  -- The room of a row is in memory, and agrees with it.
  abbrev pub Held : StateStore A → RoomRow A → Type 0
  Held s row = (room : RoomState A) × (get s row.room_id ≡ some room) × Agrees room row

  Held-Mirrored :
      (s : StateStore A) (row : RoomRow A) → Held s row → Mirrored (get s row.room_id) row
  Held-Mirrored s row (room, e, agrees) = rw e agrees

  restored-rooms :
      (fresh state : StateStore A) (o : Result (List (RoomRecord A) × List AuditRecord) × Conn A)
      (d : Conn A)
      → restored fresh o ≡ (Database.ok state, d)
      → (items : List (RoomRecord A)) × (audits : List AuditRecord) × (o.0
          ≡ Database.ok (items, audits))
        × (state.rooms ≡ restore_rooms fresh.rooms items)
  unfolding restored
  restored-rooms fresh state (Database.ok (items, audits), c) d e =
      (items, audits, refl, ground arith)
  restored-rooms fresh state (Database.err x, c) d e = cc

  scanned-some :
      (context : String) (o : Option (List (RoomRecord A))) (c : Conn A)
      (items : List (RoomRecord A))
      → (scanned context o c).0 ≡ Database.ok items
      → o ≡ some items
  scanned-some context none c items e = cc
  scanned-some context (some records) c items e = ground arith

  list_rooms-scan :
      (c : Conn A) (items : List (RoomRecord A))
      → (list_rooms c).0 ≡ Database.ok items
      → scan_rooms (sort_rows c.committed.rooms) ≡ some items
  unfolding list_rooms
  list_rooms-scan c items e =
      scanned-some "parse room updated_at" (scan_rooms (sort_rows c.committed.rooms)) (drawn c)
        items (ground arith)

  module _ ⦃o : Collation⦄ where
    with_audits-rooms :
        (rooms items : List (RoomRecord A)) (audits : List AuditRecord)
        (r : Result (List AuditRecord) × Conn A)
        → (with_audits rooms r).0 ≡ Database.ok (items, audits)
        → rooms ≡ items
    with_audits-rooms rooms items audits (Database.ok found, c) e = ground arith
    with_audits-rooms rooms items audits (Database.err x, c) e = cc

    with_rooms-rooms :
        (items : List (RoomRecord A)) (audits : List AuditRecord)
        (r : Result (List (RoomRecord A)) × Conn A)
        → (with_rooms r).0 ≡ Database.ok (items, audits)
        → r.0 ≡ Database.ok items
    with_rooms-rooms items audits (Database.ok rooms, c) e =
        ap (λ (l : List (RoomRecord A)). Database.ok l)
          (with_audits-rooms rooms items audits (list_recent_audit "" 200 c) e)
    with_rooms-rooms items audits (Database.err x, c) e = cc

    bootstrap-rooms :
        (c : Conn A) (items : List (RoomRecord A)) (audits : List AuditRecord)
        → (bootstrap c).0 ≡ Database.ok (items, audits)
        → scan_rooms (sort_rows c.committed.rooms) ≡ some items
    unfolding bootstrap
    bootstrap-rooms c items audits e =
        list_rooms-scan c items (with_rooms-rooms items audits (list_rooms c) e)

module _ {A : Type 0} ⦃f : Float64 A⦄ ⦃o : Collation⦄ where
  pub new_state_store_from_store-Held :
      (mappings : List RoomMapping) (clock : ℕ → ℕ) (c d : Conn A) (state : StateStore A)
      → DistinctRooms c.committed.rooms
      → new_state_store_from_store mappings clock c ≡ (Database.ok state, d)
      → All (Held state) c.committed.rooms
  unfolding new_state_store_from_store get
  new_state_store_from_store-Held mappings clock c d state distinct e =
      let all = c.committed.rooms in
      let (items, audits, read, rooms) =
        restored-rooms (new_state_store mappings clock) state (bootstrap c) d e in
      let (fit, same) =
        scan_rooms-RecordFits all (sort_rows all) items (bootstrap-rooms c items audits read)
          (All-sort_rows (SelfFits all) all (All-SelfFits all distinct)) in
      All-map (IsRow all) (Held state) all
        (λ row m.
          let (room, there, fits) =
            restore_rooms-Fits all row.room_id (new_state_store mappings clock).rooms items fit
              (same row.room_id ∙ (has_room-sort_rows row.room_id all ∙ m.0)) in
          (room, ap (lookup row.room_id) rooms ∙ there, m.1 row.room_id room fits refl))
        (All-IsRow all)

  -- Where the ids of the rooms are distinct, as the primary key has it, a start that reads the database
  -- without an error gives a state whose rooms agree with all rows of the database.
  pub new_state_store_from_store-Mirrors :
      (mappings : List RoomMapping) (clock : ℕ → ℕ) (c d : Conn A) (state : StateStore A)
      → DistinctRooms c.committed.rooms
      → new_state_store_from_store mappings clock c ≡ (Database.ok state, d)
      → Mirrors state c.committed.rooms
  new_state_store_from_store-Mirrors mappings clock c d state distinct e =
      All-map (Held state) (λ row. Mirrored (get state row.room_id) row) c.committed.rooms
        (Held-Mirrored state) (new_state_store_from_store-Held mappings clock c d state distinct e)
