-- ===== src/StateStore/Summary.antt =====
-- The summary of the full state counts the rooms of each status.
use mathlib.Core.List.{Perm}
use mathlib.Core.List.Perm
use ccs2_plus.Prelude.{
  ℕ, ◌+◌, ◌≡◌, refl, ◌∙◌, ◌==◌, eq_iff, String, List, [], ◌∷◌, arith, if◌then◌else◌, Bool, true,
  false, some, none, map,
}
use ccs2_plus.Prelude.Int.{pos, ltb_ℤ}
use ccs2_plus.Prelude.Table.{Table, lookup, insert, lookup-insert}
use ccs2_plus.StateStore.{RoomState, RoomSnapshot, StateStore}
use ccs2_plus.StateStore.Views.{
  text_before, place, sort_rooms, list, snapshot, tally, no_summary, summarise, full_state_payload,
}

tally-insert :
    (status other : String) (n : ℕ) (summary : Table ℕ)
    → tally other (insert status n summary) ≡ (if status == other then n else tally other summary)
tally-insert status other n summary = rw (lookup-insert, tally) (ground arith)

tally-no_summary : (status : String) → tally status no_summary ≡ 0
unfolding lookup
tally-no_summary status = ground arith

module _ {A : Type 0} where
  -- How many of the rooms have a status.
  abbrev pub count_status : String → List (RoomState A) → ℕ
  count_status status [] = 0
  count_status status (room ∷ rooms) =
      (if room.status == status then 1 else 0) + count_status status rooms

  abbrev pub rooms_of : Table (RoomState A) → List (RoomState A)
  rooms_of [] = []
  rooms_of ((k, room) ∷ rooms) = room ∷ rooms_of rooms

  tally-summarise :
      (status : String) (summary : Table ℕ) (items : List (RoomState A))
      → tally status (summarise summary items) ≡ tally status summary + count_status status items
  unfolding summarise
  tally-summarise status summary [] = omega arith
  tally-summarise status summary (item ∷ items) =
      tally-summarise status (insert item.status (tally item.status summary + 1) summary) items
      ∙ ground (
        arith,
        tally-insert item.status status (tally item.status summary + 1) summary,
        eq_iff item.status status,
      )

  count-place :
      (status : String) (room : RoomState A) (rooms : List (RoomState A))
      → count_status status (place room rooms) ≡ count_status status (room ∷ rooms)
  unfolding place
  count-place status room [] = refl
  count-place status room (r ∷ rooms) = ground (arith, count-place status room rooms)

  count-sort_rooms :
      (status : String) (rooms : Table (RoomState A))
      → count_status status (sort_rooms rooms) ≡ count_status status (rooms_of rooms)
  unfolding sort_rooms
  count-sort_rooms status [] = refl
  count-sort_rooms status ((k, room) ∷ rooms) =
      omega (arith, count-place status room (sort_rooms rooms), count-sort_rooms status rooms)

  -- A room of the full state: all its columns, the minutes only where there are any left.
  abbrev pub shown : RoomState A → RoomSnapshot
  shown room = record {
    room_id = room.room_id;
    floor = room.floor;
    status = room.status;
    stay_mode = room.stay_mode;
    case_code = room.case_code;
    controller_online = room.controller_online;
    remaining_minutes =
        if ltb_ℤ (pos 0) room.remaining_minutes then some room.remaining_minutes else none;
  }

  place-perm :
      (room : RoomState A) (rooms : List (RoomState A)) → Perm (place room rooms) (room ∷ rooms)
  unfolding place
  place-perm room [] = Perm.rfl
  place-perm room (r ∷ rooms) = by_test (text_before r.room_id room.room_id) (place-perm room rooms)
    where
      by_test :
          (b : Bool)
          → Perm (place room rooms) (room ∷ rooms)
          → Perm (if b then r ∷ place room rooms else room ∷ r ∷ rooms) (room ∷ r ∷ rooms)
      by_test true rest = Perm.trans (Perm.cons r rest) (Perm.swap room r rooms)
      by_test false rest = Perm.rfl

  sort_rooms-perm : (rooms : Table (RoomState A)) → Perm (sort_rooms rooms) (rooms_of rooms)
  unfolding sort_rooms
  sort_rooms-perm [] = Perm.rfl
  sort_rooms-perm ((k, room) ∷ rooms) =
      Perm.trans (place-perm room (sort_rooms rooms)) (Perm.cons room (sort_rooms-perm rooms))

  -- The full state has exactly the rooms that there are, each once and as `shown` describes it, and its
  -- summary has for every status, the five that it always lists and any other, the number of the rooms
  -- with that status.
  pub full_state_counts :
      (s : StateStore A) (status : String)
      → Perm (full_state_payload s).rooms (map shown (rooms_of s.rooms))
        × (tally status (full_state_payload s).summary ≡ count_status status (rooms_of s.rooms))
  unfolding full_state_payload list snapshot
  full_state_counts s status = (
    Perm.map shown (sort_rooms-perm s.rooms),
    omega (
      arith,
      tally-summarise status no_summary (sort_rooms s.rooms),
      tally-no_summary status,
      count-sort_rooms status s.rooms,
    ),
  )
