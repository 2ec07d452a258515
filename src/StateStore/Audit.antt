-- ===== src/StateStore/Audit.antt =====
-- The audit list of `stateStore` and the alerts: `appendAudit`, `listAudit`, `buildAlerts` and
-- `alertForAudit`.
use ccs2_plus.Prelude.{
  ℕ, ◌+◌, String, append, ◌||◌, Option, none, some, List, [], ◌∷◌, ◌++◌, ltb, ◌==◌, if◌then◌else◌,
  length, take, keep, decimal,
}
use ccs2_plus.Prelude.Table.{Table, lookup}
use ccs2_plus.StateStore.{RoomState, AuditEvent, AlertItem, StateStore}

abbrev pub audit_limit : ℕ
audit_limit = 200

-- `if entry.ID == "" { entry.ID = fmt.Sprintf("audit-%d", s.nextAudit) }`.
abbrev pub identified : ℕ → AuditEvent → AuditEvent
identified next entry = record entry {
  id = if entry.id == "" then append "audit-" (decimal next) else entry.id;
}

-- `s.audit = append([]auditEvent{entry}, s.audit...)`, cut at the limit.
abbrev pub push_audit : AuditEvent → List AuditEvent → List AuditEvent
push_audit entry audit =
    let longer = entry ∷ audit in
    if ltb audit_limit (length longer) then take audit_limit longer else longer

module _ {A : Type 0} where
  -- The counter has 64 bits; it does not come to its end.
  unfoldable pub append_audit : AuditEvent → StateStore A → AuditEvent × StateStore A
  append_audit entry s =
      let next = s.next_audit + 1 in
      let stored = identified next entry in
      (stored, record s { audit = push_audit stored s.audit; next_audit = next })

  unfoldable pub list_audit : StateStore A → String → List AuditEvent
  list_audit s room_id =
      keep (λ (item : AuditEvent). (room_id == "") || (item.room_id == room_id)) s.audit

  abbrev pub offline_alert : RoomState A → AlertItem
  offline_alert room = record {
    id = append "alert-offline-" room.room_id;
    timestamp = room.updated_at;
    room_id = room.room_id;
    severity = "high";
    rule_code = "DEVICE_OFFLINE";
    status = "open";
    title = "Offline device";
    detail = "Controller is offline while room remains in the active system map.";
  }

  abbrev pub overstay_alert : RoomState A → AlertItem
  overstay_alert room = record {
    id = append "alert-overstay-" room.room_id;
    timestamp = room.updated_at;
    room_id = room.room_id;
    severity = "medium";
    rule_code = "POSSIBLE_EXTEND_WITHOUT_PAYMENT";
    status = "open";
    title = "Possible extend without payment";
    detail = "Room remains overstay and should be reviewed by cashier or manager.";
  }

  -- The loop over the rooms, in the order in which the table lists them; Go leaves the order of a
  -- map open.
  unfoldable pub room_alerts : Table (RoomState A) → List AlertItem
  room_alerts [] = []
  room_alerts ((k, room) ∷ rooms) =
      (if room.controller_online then [] else offline_alert room ∷ [])
      ++ ((if room.status == "overstay" then overstay_alert room ∷ [] else []) ++ room_alerts rooms)

abbrev pub open_room_alert : AuditEvent → AlertItem
open_room_alert entry = record {
  id = append "alert-open-room-" entry.id;
  timestamp = entry.timestamp;
  room_id = entry.room_id;
  severity = "high";
  rule_code = "OPEN_ROOM_WHILE_VACANT";
  status = "open";
  title = "Open room while vacant";
  detail = "Open-room event was recorded while room state remained vacant.";
}

module _ {A : Type 0} where
  -- The status of `s.rooms[id]`: that of the zero value where there is no such room.
  abbrev pub status_of : Option (RoomState A) → String
  status_of none = ""
  status_of (some room) = room.status

  -- The loop over the audit list.
  unfoldable pub audit_alerts : Table (RoomState A) → List AuditEvent → List AlertItem
  audit_alerts rooms [] = []
  audit_alerts rooms (entry ∷ audit) =
      let rest = audit_alerts rooms audit in
      if entry.action == "open_room"
      then (if status_of (lookup entry.room_id rooms) == "vacant"
          then open_room_alert entry ∷ rest
          else rest)
      else rest

  unfoldable pub build_alerts : StateStore A → List AlertItem
  unfolding room_alerts audit_alerts
  build_alerts s = room_alerts s.rooms ++ audit_alerts s.rooms s.audit

  abbrev pub alert_for_room : AuditEvent → Option (RoomState A) → Option AlertItem
  alert_for_room entry none = none
  alert_for_room entry (some room) =
      if room.status == "vacant" then some (open_room_alert entry) else none

  unfoldable pub alert_for_audit : StateStore A → AuditEvent → Option AlertItem
  alert_for_audit s entry =
      if entry.action == "open_room"
      then alert_for_room entry (lookup entry.room_id s.rooms)
      else none
