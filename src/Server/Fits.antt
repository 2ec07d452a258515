-- ===== src/Server/Fits.antt =====
-- What the loops of the start make of the rows of the database, room by room.
use ccs2_plus.Prelude.{
  ℕ, ◌≡◌, refl, ap, ◌∙◌, String, Bool, true, false, ◌||◌, Bool-cases, inl, inr, Option, none, some,
  List, [], ◌∷◌, ◌==◌, eq_iff, arith, All,
}
use mathlib.Core.Path.{subst}
use ccs2_plus.Prelude.Table.{Table, lookup, insert, lookup-insert}
use ccs2_plus.StateStore.{RoomState}
use ccs2_plus.Database.{RoomRow, parse}
use ccs2_plus.Database.Statements.{has_room, id_before}
use ccs2_plus.Database.Reads.{
  RoomRecord, room_record, place_row, sort_rows, with_room, scan_rooms, scanned,
}
use ccs2_plus.Server.Agreement.{Agrees}
use ccs2_plus.Server.Restore.{room_of, restore_rooms}

module _ {A : Type 0} where
  -- No two rooms have the same id, the primary key of the table.
  abbrev pub DistinctRooms : List (RoomRow A) → Type 0
  DistinctRooms [] = Unit
  DistinctRooms (row ∷ rows) = (has_room row.room_id rows ≡ false) × DistinctRooms rows

  -- What the row of a room says holds of a state.
  abbrev pub Fits : List (RoomRow A) → String → RoomState A → Type 0
  Fits [] key room = Unit
  Fits (row ∷ rows) key room = (row.room_id ≡ key → Agrees room row) × Fits rows key room

  Fits-absent :
      (rows : List (RoomRow A)) (key : String) (room : RoomState A)
      → has_room key rows ≡ false
      → Fits rows key room
  unfolding has_room
  Fits-absent [] key room h = tt
  Fits-absent (row ∷ rows) key room h = (
    λ e. absurd (ground (arith, eq_iff row.room_id key)),
    Fits-absent rows key room (ground arith),
  )

  -- With distinct ids each row fits itself.
  abbrev pub SelfFits : List (RoomRow A) → RoomRow A → Type 0
  SelfFits rows row = (t : ℕ) → Fits rows row.room_id (room_of (room_record row t))

  SelfFits-later :
      (row : RoomRow A) (rows later : List (RoomRow A))
      → has_room row.room_id later ≡ false
      → All (SelfFits rows) later
      → All (SelfFits (row ∷ rows)) later
  unfolding has_room
  SelfFits-later row rows [] h s = tt
  SelfFits-later row rows (r ∷ later) h (s, ss) = (
    λ t. (λ e. absurd (ground (arith, eq_iff r.room_id row.room_id)), s t),
    SelfFits-later row rows later (ground arith) ss,
  )

  pub All-SelfFits : (rows : List (RoomRow A)) → DistinctRooms rows → All (SelfFits rows) rows
  All-SelfFits [] d = tt
  All-SelfFits (row ∷ rows) (n, d) = (
    λ t. (λ e. (refl, refl, refl, refl), Fits-absent rows row.room_id _ n),
    SelfFits-later row rows rows n (All-SelfFits rows d),
  )

  All-place_row :
      (P : RoomRow A → Type 0) (row : RoomRow A) (rows : List (RoomRow A))
      → P row
      → All P rows
      → All P (place_row row rows)
  unfolding place_row
  All-place_row P row [] p ps = (p, tt)
  All-place_row P row (r ∷ rows) p (q, qs) = elim (Bool-cases (id_before r.room_id row.room_id)) [
    | inl e ↦ rw e (q, All-place_row P row rows p qs)
    | inr e ↦ rw e (p, (q, qs))
  ]

  pub All-sort_rows :
      (P : RoomRow A → Type 0) (rows : List (RoomRow A)) → All P rows → All P (sort_rows rows)
  unfolding sort_rows
  All-sort_rows P [] ps = tt
  All-sort_rows P (row ∷ rows) (p, ps) =
      All-place_row P row (sort_rows rows) p (All-sort_rows P rows ps)

  has_room-place_row :
      (key : String) (row : RoomRow A) (rows : List (RoomRow A))
      → has_room key (place_row row rows) ≡ (row.room_id == key || has_room key rows)
  unfolding place_row has_room
  has_room-place_row key row [] = refl
  has_room-place_row key row (r ∷ rows) = ground (arith, has_room-place_row key row rows)

  pub has_room-sort_rows :
      (key : String) (rows : List (RoomRow A)) → has_room key (sort_rows rows) ≡ has_room key rows
  unfolding sort_rows has_room
  has_room-sort_rows key [] = refl
  has_room-sort_rows key (row ∷ rows) =
      has_room-place_row key row (sort_rows rows) ∙ ground (arith, has_room-sort_rows key rows)

  -- Whether a record has the id, and whether a record fits the rows.
  abbrev pub has_record : String → List (RoomRecord A) → Bool
  has_record key [] = false
  has_record key (item ∷ items) = item.room_id == key || has_record key items

  abbrev pub RecordFits : List (RoomRow A) → RoomRecord A → Type 0
  RecordFits rows item = Fits rows item.room_id (room_of item)

  with_room-RecordFits :
      (all rows : List (RoomRow A)) (row : RoomRow A) (t : Option ℕ)
      (scanned : Option (List (RoomRecord A))) (items : List (RoomRecord A))
      → with_room row t scanned ≡ some items
      → SelfFits all row
      → ((later : List (RoomRecord A))
          → scanned ≡ some later
          → All (RecordFits all) later
            × ((key : String) → has_record key later ≡ has_room key rows))
      → All (RecordFits all) items
        × ((key : String) → has_record key items ≡ has_room key (row ∷ rows))
  unfolding has_room
  with_room-RecordFits all rows row none scanned items e s h = cc
  with_room-RecordFits all rows row (some t) none items e s h = cc
  with_room-RecordFits all rows row (some t) (some later) items e s h =
      let (fit, same) = h later refl in
      let here : room_record row t ∷ later ≡ items = ground arith in
      subst
        (λ (l : List (RoomRecord A)).
          All (RecordFits all) l
          × ((key : String) → has_record key l ≡ (row.room_id == key || has_room key rows)))
        here ((s t, fit), λ key. ap (λ b. row.room_id == key || b) (same key))

  pub scan_rooms-RecordFits :
      (all rows : List (RoomRow A)) (items : List (RoomRecord A))
      → scan_rooms rows ≡ some items
      → All (SelfFits all) rows
      → All (RecordFits all) items × ((key : String) → has_record key items ≡ has_room key rows)
  unfolding scan_rooms has_room
  scan_rooms-RecordFits all [] items e s =
      let here : [] ≡ items = ground arith in
      subst
        (λ (l : List (RoomRecord A)).
          All (RecordFits all) l × ((key : String) → has_record key l ≡ false))
        here (tt, λ key. refl)
  scan_rooms-RecordFits all (row ∷ rows) items e (s, ss) =
      with_room-RecordFits all rows row (parse row.updated_at) (scan_rooms rows) items e s
        (λ later q. scan_rooms-RecordFits all rows later q ss)

  restore_rooms-absent :
      (key : String) (rooms : Table (RoomState A)) (items : List (RoomRecord A))
      → has_record key items ≡ false
      → lookup key (restore_rooms rooms items) ≡ lookup key rooms
  unfolding restore_rooms
  restore_rooms-absent key rooms [] h = refl
  restore_rooms-absent key rooms (item ∷ items) h =
      restore_rooms-absent key (insert item.room_id (room_of item) rooms) items (ground arith)
      ∙ (lookup-insert item.room_id key (room_of item) rooms ∙ ground arith)

  -- A room with a record has after the loop a state that fits the rows.
  pub restore_rooms-Fits :
      (all : List (RoomRow A)) (key : String) (rooms : Table (RoomState A))
      (items : List (RoomRecord A))
      → All (RecordFits all) items
      → has_record key items ≡ true
      → (room : RoomState A) × (lookup key (restore_rooms rooms items) ≡ some room)
        × Fits all key room
  unfolding restore_rooms
  restore_rooms-Fits all key rooms [] s h = cc
  restore_rooms-Fits all key rooms (item ∷ items) (s, ss) h =
      elim (Bool-cases (has_record key items)) [
        | inl e ↦ restore_rooms-Fits all key (insert item.room_id (room_of item) rooms) items ss e
        | inr e ↦
            let same : item.room_id ≡ key = ground (arith, eq_iff item.room_id key) in
            (
              room_of item,
              restore_rooms-absent key (insert item.room_id (room_of item) rooms) items e
                  ∙ (lookup-insert item.room_id key (room_of item) rooms
                      ∙ ground (arith, eq_iff item.room_id key)),
              subst (λ k. Fits all k (room_of item)) same s,
            )
      ]
