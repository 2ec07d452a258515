-- ===== src/Server/Restore.antt =====
-- `newStateStoreFromStore` of server.go: the state in memory from the database at the start.
use ccs2_plus.Prelude.{ℕ, List, [], ◌∷◌, map, length}
use ccs2_plus.Prelude.Float.{Float64}
use ccs2_plus.Prelude.Table.{Table, insert}
use ccs2_plus.RoomMap.{RoomMapping}
use ccs2_plus.StateStore.{RoomState, AuditEvent, StateStore, new_state_store}
use ccs2_plus.Database.{Collation, Conn, Result, ok, err}
use ccs2_plus.Database.Reads.{RoomRecord, AuditRecord, bootstrap}

abbrev audit_of : AuditRecord → AuditEvent
audit_of item = record {
  id = item.id;
  timestamp = item.timestamp;
  room_id = item.room_id;
  action = item.action;
  actor = item.actor;
  result = item.result;
  stay_mode = item.stay_mode;
  case_code = item.case_code;
  detail = item.detail;
}

module _ {A : Type 0} where
  abbrev pub room_of : RoomRecord A → RoomState A
  room_of item = record {
    room_id = item.room_id;
    floor = item.floor;
    status = item.status;
    stay_mode = item.stay_mode;
    case_code = item.case_code;
    controller_online = item.controller_online;
    remaining_minutes = item.remaining_minutes;
    last_payment_amount = item.last_payment_amount;
    last_payment_method = item.last_payment_method;
    last_payment_ref = item.last_payment_ref;
    updated_at = item.updated_at;
  }

  -- The loop over the rooms of the database.
  unfoldable pub restore_rooms : Table (RoomState A) → List (RoomRecord A) → Table (RoomState A)
  restore_rooms rooms [] = rooms
  restore_rooms rooms (item ∷ items) =
      restore_rooms (insert item.room_id (room_of item) rooms) items

  unfoldable pub restored :
      StateStore A
      → Result (List (RoomRecord A) × List AuditRecord) × Conn A
      → Result (StateStore A) × Conn A
  restored fresh (err e, c) = (err e, c)
  restored fresh (ok (items, audits), c) = (
    ok (record {
      rooms = restore_rooms fresh.rooms items;
      audit = map audit_of audits;
      next_audit = length audits;
    }),
    c,
  )

module _ {A : Type 0} ⦃f : Float64 A⦄ ⦃o : Collation⦄ where
  unfoldable pub new_state_store_from_store :
      List RoomMapping → (ℕ → ℕ) → Conn A → Result (StateStore A) × Conn A
  new_state_store_from_store mappings clock c =
      restored (new_state_store mappings clock) (bootstrap c)
