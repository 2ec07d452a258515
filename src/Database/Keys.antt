-- ===== src/Database/Keys.antt =====
-- Primary keys and references to rooms, for one table.
use ccs2_plus.Prelude.{
  ◌≡◌, refl, ◌∙◌, String, Bool, true, false, ◌||◌, List, [], ◌∷◌, ◌++◌, ◌==◌, eq_iff, if◌then◌else◌,
  arith, All,
}
use ccs2_plus.Database.{RoomRow, StayRow}
use ccs2_plus.Database.Statements.{has_key, has_room, update_stays}

module _ {R : Type 0} where
  -- No two rows have the same key.
  abbrev pub Distinct : (R → String) → List R → Type 0
  Distinct key [] = Unit
  Distinct key (row ∷ rows) = (has_key key (key row) rows ≡ false) × Distinct key rows

  has_key-snoc :
      (key : R → String) (k : String) (rows : List R) (row : R)
      → has_key key k (rows ++ row ∷ []) ≡ (has_key key k rows || key row == k)
  unfolding has_key
  has_key-snoc key k [] row = ground arith
  has_key-snoc key k (r ∷ rows) row = ground (arith, has_key-snoc key k rows row)

  Distinct-snoc :
      (key : R → String) (rows : List R) (row : R)
      → Distinct key rows
      → has_key key (key row) rows ≡ false
      → Distinct key (rows ++ row ∷ [])
  unfolding has_key
  Distinct-snoc key [] row d h = (refl, tt)
  Distinct-snoc key (r ∷ rows) row (n, d) h = (
    ground (
      arith,
      has_key-snoc key (key r) rows row,
      eq_iff (key r) (key row),
      eq_iff (key row) (key r),
    ),
    Distinct-snoc key rows row d (ground arith),
  )

module _ {A R : Type 0} where
  -- Every row names a room that there is.
  abbrev pub Refers : (R → String) → List (RoomRow A) → List R → Type 0
  Refers room rooms rows = All (λ (row : R). has_room (room row) rooms ≡ true) rows

  -- A table with a primary key and a reference to a room.
  abbrev pub IsSound : (R → String) → (R → String) → List (RoomRow A) → List R → Type 0
  IsSound key room rooms rows = Distinct key rows × Refers room rooms rows

  Refers-rooms :
      (room : R → String) (rooms rooms' : List (RoomRow A)) (rows : List R)
      → ((k : String) → has_room k rooms' ≡ has_room k rooms)
      → Refers room rooms rows
      → Refers room rooms' rows
  Refers-rooms room rooms rooms' [] h r = tt
  Refers-rooms room rooms rooms' (row ∷ rows) h (r, rs) =
      (h (room row) ∙ r, Refers-rooms room rooms rooms' rows h rs)

  Refers-snoc :
      (room : R → String) (rooms : List (RoomRow A)) (rows : List R) (row : R)
      → Refers room rooms rows
      → has_room (room row) rooms ≡ true
      → Refers room rooms (rows ++ row ∷ [])
  Refers-snoc room rooms [] row r h = (h, tt)
  Refers-snoc room rooms (r ∷ rows) row (q, qs) h = (q, Refers-snoc room rooms rows row qs h)

  pub IsSound-rooms :
      (key room : R → String) (rooms rooms' : List (RoomRow A)) (rows : List R)
      → ((k : String) → has_room k rooms' ≡ has_room k rooms)
      → IsSound key room rooms rows
      → IsSound key room rooms' rows
  IsSound-rooms key room rooms rooms' rows h (d, r) = (d, Refers-rooms room rooms rooms' rows h r)

  pub IsSound-snoc :
      (key room : R → String) (rooms : List (RoomRow A)) (rows : List R) (row : R)
      → has_key key (key row) rows ≡ false
      → has_room (room row) rooms ≡ true
      → IsSound key room rooms rows
      → IsSound key room rooms (rows ++ row ∷ [])
  IsSound-snoc key room rooms rows row k h (d, r) =
      (Distinct-snoc key rows row d k, Refers-snoc room rooms rows row r h)

  -- A row that is added only under a condition.
  pub IsSound-if :
      (b : Bool) (key room : R → String) (rooms : List (RoomRow A)) (rows : List R) (row : R)
      → (b ≡ true → has_key key (key row) rows ≡ false)
      → has_room (room row) rooms ≡ true
      → IsSound key room rooms rows
      → IsSound key room rooms (if b then rows ++ row ∷ [] else rows)
  IsSound-if true key room rooms rows row k h s = IsSound-snoc key room rooms rows row (k refl) h s
  IsSound-if false key room rooms rows row k h s = s

module _ {A : Type 0} where
  has_key-update_stays :
      (k stay_id : String) (change : StayRow A → StayRow A) (rows : List (StayRow A))
      → ((row : StayRow A) → (change row).stay_id ≡ row.stay_id)
      → has_key (λ (row : StayRow A). row.stay_id) k (update_stays stay_id change rows)
        ≡ has_key (λ (row : StayRow A). row.stay_id) k rows
  unfolding has_key update_stays
  has_key-update_stays k stay_id change [] h = refl
  has_key-update_stays k stay_id change (row ∷ rows) h =
      ground (arith, h row, has_key-update_stays k stay_id change rows h)

  -- An update of a stay that keeps its id and its room keeps the table sound.
  pub IsSound-update_stays :
      (stay_id : String) (change : StayRow A → StayRow A) (rooms : List (RoomRow A))
      (rows : List (StayRow A))
      → ((row : StayRow A) → (change row).stay_id ≡ row.stay_id)
      → ((row : StayRow A) → (change row).room_id ≡ row.room_id)
      → IsSound (λ (row : StayRow A). row.stay_id) (λ (row : StayRow A). row.room_id) rooms rows
      → IsSound
          (λ (row : StayRow A). row.stay_id)
          (λ (row : StayRow A). row.room_id)
          rooms
          (update_stays stay_id change rows)
  unfolding update_stays
  IsSound-update_stays stay_id change rooms [] h g s = (tt, tt)
  IsSound-update_stays stay_id change rooms (row ∷ rows) h g ((n, d), (r, rs)) =
      let (ds, qs) = IsSound-update_stays stay_id change rooms rows h g (d, rs) in
      (
        (ground (arith, h row, has_key-update_stays row.stay_id stay_id change rows h), ds),
        (ground (arith, g row), qs),
      )
