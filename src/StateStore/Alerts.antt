-- ===== src/StateStore/Alerts.antt =====
-- Which statuses the program gives to rooms, and so which alerts can come up.
pub mod Vacant
use ccs2_plus.Prelude.{
  ℕ, ◌+◌, ◌≡◌, refl, ◌∙◌, ap, ◌⊎◌, inl, inr, ◌==◌, String, true, false, Option, none, some, List,
  [], ◌∷◌, arith, if◌then◌else◌, Option-cases, All,
}
use mathlib.Core.List.{filter_map}
use mathlib.Core.Option
use ccs2_plus.Prelude.Int.{ℤ}
use ccs2_plus.Prelude.Float.{Float64}
use ccs2_plus.Prelude.Table.{Table, lookup, insert, All-insert, All-lookup}
use ccs2_plus.RoomMap.{RoomMapping}
use ccs2_plus.StateStore.{
  RoomState, StateStore, AuditEvent, AlertItem, update_room, checked_in, apply_check_in, vacated,
  apply_check_out, commanded, apply_command, extended, apply_extend, paid_by, apply_payment,
  fresh_room, fill_rooms, new_state_store,
}
use ccs2_plus.StateStore.Audit.{
  append_audit, room_alerts, audit_alerts, build_alerts, alert_for_room, status_of, alert_for_audit,
  open_room_alert,
}

-- One call of a method that changes the state.
pub data Op (A : Type 0) : Type 0 where
  check_in : String → String → String → ℤ → A → String → ℕ → Op A
  check_out : String → ℕ → Op A
  command : String → String → ℕ → Op A
  extend : String → String → String → ℤ → A → String → ℕ → Op A
  payment : String → A → String → String → ℕ → Op A
  log_audit : AuditEvent → Op A

-- The statuses that the program writes.
abbrev pub IsWritten : String → Type 0
IsWritten status = (status ≡ "vacant") ⊎ ((status ≡ "occupied") ⊎ (status ≡ "cleaning"))

module _ {A : Type 0} where
  -- A room stands under its own id, its status is one that the program writes, and it is online.
  abbrev pub IsTracked : String × RoomState A → Type 0
  IsTracked (k, room) = (room.room_id ≡ k) × IsWritten room.status × (room.controller_online ≡ true)

  abbrev pub IsValid : StateStore A → Type 0
  IsValid s = All IsTracked s.rooms

  commanded-IsTracked :
      (room_id action : String) (now : ℕ) (item : RoomState A)
      → IsTracked (room_id, item)
      → IsTracked (room_id, commanded action now item)
  commanded-IsTracked room_id action now item t = ground arith

  -- An update keeps what holds of all rooms where the change keeps it.
  update_room-All :
      (P : String × RoomState A → Type 0) (room_id : String) (change : RoomState A → RoomState A)
      (s : StateStore A)
      → ((item : RoomState A) → P (room_id, item) → P (room_id, change item))
      → All P s.rooms
      → All P (update_room room_id change s).rooms
  unfolding update_room
  update_room-All P room_id change s keeps h = elim (Option-cases (lookup room_id s.rooms)) [
    | inl missing ↦ rw (missing, update_room) h
    | inr (item, found) ↦
        rw (found, update_room)
          (All-insert P room_id (change item) s.rooms h
            (keeps item (All-lookup P room_id item s.rooms h found)))
  ]

module _ {A : Type 0} ⦃f : Float64 A⦄ where
  unfoldable pub apply_op : Op A → StateStore A → StateStore A
  apply_op (check_in room stay case hours amount ref now) s =
      apply_check_in room stay case hours amount ref now s
  apply_op (check_out room now) s = apply_check_out room now s
  apply_op (command room action now) s = apply_command room action now s
  apply_op (extend room stay case minutes amount ref now) s =
      apply_extend room stay case minutes amount ref now s
  apply_op (payment room amount method ref now) s = apply_payment room amount method ref now s
  apply_op (log_audit entry) s = (append_audit entry s).1

  unfoldable pub run : List (Op A) → StateStore A → StateStore A
  run [] s = s
  run (op ∷ ops) s = run ops (apply_op op s)

  apply_op-IsValid : (op : Op A) (s : StateStore A) → IsValid s → IsValid (apply_op op s)
  unfolding apply_op apply_check_in apply_check_out apply_command apply_extend apply_payment
      append_audit
  apply_op-IsValid (check_in room stay case hours amount ref now) s h =
      update_room-All IsTracked room (checked_in stay case hours amount ref now) s
        (λ item t. (t.0, inr (inl refl), t.2)) h
  apply_op-IsValid (check_out room now) s h =
      update_room-All IsTracked room (vacated now) s (λ item t. (t.0, inl refl, t.2)) h
  apply_op-IsValid (command room action now) s h =
      update_room-All IsTracked room (commanded action now) s
        (λ item t. commanded-IsTracked room action now item t) h
  apply_op-IsValid (extend room stay case minutes amount ref now) s h =
      update_room-All IsTracked room (extended stay case minutes amount ref now) s
        (λ item t. (t.0, inr (inl refl), t.2)) h
  apply_op-IsValid (payment room amount method ref now) s h =
      update_room-All IsTracked room (paid_by amount method ref now) s (λ item t. t) h
  apply_op-IsValid (log_audit entry) s h = h

  run-IsValid : (ops : List (Op A)) (s : StateStore A) → IsValid s → IsValid (run ops s)
  unfolding run
  run-IsValid [] s h = h
  run-IsValid (op ∷ ops) s h = run-IsValid ops (apply_op op s) (apply_op-IsValid op s h)

  -- What holds of the rooms at the start holds of all rooms of a new state.
  fill_rooms-All :
      (P : String × RoomState A → Type 0)
      → ((m : RoomMapping) (now : ℕ) → P (m.room_id, fresh_room m now))
      → (rooms : Table (RoomState A)) (mappings : List RoomMapping) (clock : ℕ → ℕ) (i : ℕ)
      → All P rooms
      → All P (fill_rooms rooms mappings clock i)
  unfolding fill_rooms
  fill_rooms-All P new rooms [] clock i h = h
  fill_rooms-All P new rooms (m ∷ mappings) clock i h =
      fill_rooms-All P new (insert m.room_id (fresh_room m (clock i)) rooms) mappings clock (i + 1)
        (All-insert P m.room_id (fresh_room m (clock i)) rooms h (new m (clock i)))

new_state_store-IsValid :
    (A : Type 0) ⦃f : Float64 A⦄
    → (mappings : List RoomMapping) (clock : ℕ → ℕ)
    → IsValid {A = A} (new_state_store mappings clock)
unfolding new_state_store
new_state_store-IsValid A mappings clock =
    fill_rooms-All IsTracked (λ m now. (refl, inl refl, refl)) [] mappings clock 0 tt

module _ {A : Type 0} ⦃f : Float64 A⦄ where
  -- From a new state every list of calls, whatever their arguments, leaves each room under its own id,
  -- online, and vacant, occupied or cleaning: no call makes a room `overstay` or takes it offline.
  pub statuses_written :
      (mappings : List RoomMapping) (clock : ℕ → ℕ) (ops : List (Op A))
      → IsValid (run ops (new_state_store mappings clock))
  statuses_written mappings clock ops =
      run-IsValid ops (new_state_store mappings clock) (new_state_store-IsValid A mappings clock)

not_overstay : (status : String) → IsWritten status → (status == "overstay") ≡ false
not_overstay status (inl v) = rw v
not_overstay status (inr (inl o)) = rw o
not_overstay status (inr (inr c)) = rw c

module _ {A : Type 0} where
  no_room_alerts : (rooms : Table (RoomState A)) → All IsTracked rooms → room_alerts rooms ≡ []
  unfolding room_alerts
  no_room_alerts [] h = refl
  no_room_alerts ((k, room) ∷ rooms) (t, h) =
      rw (t.2, not_overstay room.status t.1) (no_room_alerts rooms h)

  alerts_step :
      (entry : AuditEvent) (o : Option (RoomState A)) (rest : List AlertItem)
      → (if entry.action == "open_room"
          then (if status_of o == "vacant" then open_room_alert entry ∷ rest else rest)
          else rest)
        ≡ Option.Option-elim
            (if entry.action == "open_room" then alert_for_room entry o else none)
            rest
            (λ x. x ∷ rest)
  unfolding filter_map
  alerts_step entry none rest = ground arith
  alerts_step entry (some room) rest = ground arith

  audit_alerts-filter_map :
      (s : StateStore A) (audit : List AuditEvent)
      → audit_alerts s.rooms audit ≡ filter_map (alert_for_audit s) audit
  unfolding audit_alerts alert_for_audit filter_map
  audit_alerts-filter_map s [] = refl
  audit_alerts-filter_map s (entry ∷ audit) =
      alerts_step entry (lookup entry.room_id s.rooms) (audit_alerts s.rooms audit)
      ∙ ap (λ (r : List AlertItem). Option.Option-elim (alert_for_audit s entry) r (λ x. x ∷ r))
          (audit_alerts-filter_map s audit)

  -- In a state whose rooms are as the methods leave them from a new state, the alerts are exactly those of the audited door openings:
  -- each entry of the audit list contributes what `alertForAudit` gives for it when it is written, in
  -- the order of the list, and the rooms contribute nothing.
  pub build_alerts-filter_map :
      (s : StateStore A) → IsValid s → build_alerts s ≡ filter_map (alert_for_audit s) s.audit
  unfolding build_alerts
  build_alerts-filter_map s h = rw (no_room_alerts s.rooms h) (audit_alerts-filter_map s s.audit)
