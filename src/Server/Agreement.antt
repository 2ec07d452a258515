-- ===== src/Server/Agreement.antt =====
-- The rooms in memory and the rooms of the database: what the requests keep of their agreement.
use ccs2_plus.Prelude.{
  ◌≡◌, refl, sym, String, Bool, true, false, Bool-cases, Option, none, some, inl, inr, List, [],
  ◌∷◌, ◌==◌, eq_iff, arith, All,
}
use mathlib.Core.Option
use mathlib.Core.Path.{subst}
use ccs2_plus.StateStore.{RoomState, StateStore, get}
use ccs2_plus.StateStore.Frame.{Updates}
use ccs2_plus.Database.{RoomRow}
use ccs2_plus.Database.Statements.{update_rooms}

same_test : (a b : String) (x : Bool) → (a == b) ≡ x → (b == a) ≡ x
same_test a b x h = ground (arith, eq_iff a b, eq_iff b a)

module _ {A : Type 0} where
  -- A room in memory and its row have the same status, stay mode, case and minutes.
  abbrev pub Agrees : RoomState A → RoomRow A → Type 0
  Agrees room row =
      (row.status ≡ room.status)
      × (row.stay_mode ≡ room.stay_mode)
      × (row.case_code ≡ room.case_code)
      × (row.remaining_minutes ≡ room.remaining_minutes)

  abbrev pub Mirrored : Option (RoomState A) → RoomRow A → Type 0
  Mirrored none row = Unit
  Mirrored (some room) row = Agrees room row

  -- Every row of a room that is in memory agrees with it.
  abbrev pub Mirrors : StateStore A → List (RoomRow A) → Type 0
  Mirrors s rows = All (λ (row : RoomRow A). Mirrored (get s row.room_id) row) rows

  Mirrored-map :
      (o : Option (RoomState A)) (row : RoomRow A) (change : RoomState A → RoomState A)
      (set : RoomRow A → RoomRow A)
      → ((room : RoomState A) → o ≡ some room → Agrees room row → Agrees (change room) (set row))
      → Mirrored o row
      → Mirrored (Option.map change o) (set row)
  Mirrored-map none row change set h m = tt
  Mirrored-map (some room) row change set h m = h room refl m

  same_room :
      (a b : String) (s : StateStore A) (room : RoomState A)
      → (a == b) ≡ true
      → get s a ≡ some room
      → get s b ≡ some room
  same_room a b s room e g =
      let same : a ≡ b = ground (arith, eq_iff a b) in subst (λ key. get s key ≡ some room) same g

  -- The same change made in memory and in the database.
  pub Mirrors-update :
      (room_id : String) (change : RoomState A → RoomState A) (set : RoomRow A → RoomRow A)
      (s t : StateStore A) (rows : List (RoomRow A))
      → Updates room_id change s t
      → ((row : RoomRow A) → (set row).room_id ≡ row.room_id)
      → ((room : RoomState A) (row : RoomRow A)
          → get s room_id ≡ some room
          → Agrees room row
          → Agrees (change room) (set row))
      → Mirrors s rows
      → Mirrors t (update_rooms room_id set rows)
  unfolding update_rooms
  Mirrors-update room_id change set s t [] u h k m = tt
  Mirrors-update room_id change set s t (row ∷ rows) u h k (m, ms) = (
    elim (Bool-cases (row.room_id == room_id)) [
      | inl e ↦ rw e (
          subst (λ key. Mirrored (get t key) (set row)) (sym (h row))
            (rw (u.0 row.room_id) (
              rw (same_test row.room_id room_id true e) (
                Mirrored-map (get s row.room_id) row change set
                  (λ room g. k room row (same_room row.room_id room_id s room e g)) m))))
      | inr e ↦ rw e (rw (u.0 row.room_id) (rw (same_test row.room_id room_id false e) m))
    ],
    Mirrors-update room_id change set s t rows u h k ms,
  )
