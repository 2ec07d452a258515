-- ===== src/StateStore/Frame.antt =====
-- Each update changes the addressed room alone; what it leaves of the rest of the state.
use ccs2_plus.Prelude.{ℕ, ◌≡◌, inl, inr, ◌==◌, eq_iff, String, arith, if◌then◌else◌, Option-cases}
use mathlib.Core.Option
use ccs2_plus.Prelude.Int.{ℤ}
use ccs2_plus.Prelude.Float.{Float64}
use ccs2_plus.Prelude.Table.{lookup, lookup-insert}
use ccs2_plus.StateStore.{
  RoomState, StateStore, get, update_room, checked_in, apply_check_in, vacated, apply_check_out,
  commanded, apply_command, extended, apply_extend, paid_by, apply_payment,
}

module _ {A : Type 0} where
  -- What a method does, as a client sees it by `get`: the room of the call is changed if it is there,
  -- and every other room stays.
  abbrev pub Updates : String → (RoomState A → RoomState A) → StateStore A → StateStore A → Type 0
  Updates room_id change s t =
      ((j : String) → get t j ≡ (if room_id == j then Option.map change (get s j) else get s j))
      × (t.audit ≡ s.audit)
      × (t.next_audit ≡ s.next_audit)

  get-update_room :
      (room_id : String) (change : RoomState A → RoomState A) (s : StateStore A) (j : String)
      → get (update_room room_id change s) j
        ≡ (if room_id == j then Option.map change (get s j) else get s j)
  unfolding get update_room
  get-update_room room_id change s j = elim (Option-cases (lookup room_id s.rooms)) [
    | inl missing ↦ ground (arith, eq_iff room_id j)
    | inr (item, found) ↦
        ground (arith, eq_iff room_id j, lookup-insert room_id j (change item) s.rooms)
  ]

  update_room-Updates :
      (room_id : String) (change : RoomState A → RoomState A) (s : StateStore A)
      → Updates room_id change s (update_room room_id change s)
  update_room-Updates room_id change s = (
    get-update_room room_id change s,
    unfold update_room in ground arith,
    unfold update_room in ground arith,
  )

-- The five updates of the state, on the room that they name and on no other: a check-in, a check-out,
-- a command, an extension and a payment do to that room what their code writes, where the room is
-- known, and leave the other rooms, the audit list and its counter alone.
pub others_kept :
    {A : Type 0} ⦃f : Float64 A⦄
    → (room_id stay_mode case_code method ref action : String)
    → (minutes : ℤ) (amount : A) (now : ℕ) (s : StateStore A)
    → Updates room_id
        (checked_in stay_mode case_code minutes amount ref now)
        s
        (apply_check_in room_id stay_mode case_code minutes amount ref now s)
      × Updates room_id (vacated now) s (apply_check_out room_id now s)
      × Updates room_id (commanded action now) s (apply_command room_id action now s)
      × Updates room_id
          (extended stay_mode case_code minutes amount ref now)
          s
          (apply_extend room_id stay_mode case_code minutes amount ref now s)
      × Updates room_id
          (paid_by amount method ref now)
          s
          (apply_payment room_id amount method ref now s)
unfolding apply_check_in apply_check_out apply_command apply_extend apply_payment
others_kept room_id stay_mode case_code method ref action minutes amount now s = (
  update_room-Updates room_id (checked_in stay_mode case_code minutes amount ref now) s,
  update_room-Updates room_id (vacated now) s,
  update_room-Updates room_id (commanded action now) s,
  update_room-Updates room_id (extended stay_mode case_code minutes amount ref now) s,
  update_room-Updates room_id (paid_by amount method ref now) s,
)
