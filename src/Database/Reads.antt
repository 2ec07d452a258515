-- ===== src/Database/Reads.antt =====
-- The reads of store.go that fill the state at the start: ListRooms, ListRecentAudit and Bootstrap.
-- Each is one query outside a transaction.
use ccs2_plus.Prelude.{
  ℕ, String, Bool, false, not, ◌&&◌, ◌||◌, Option, none, some, List, [], ◌∷◌, ◌==◌, if◌then◌else◌,
  keep, take, eqb,
}
use ccs2_plus.Prelude.Int.{ℤ, pos, negsuc}
use ccs2_plus.Database.{
  Time, parse, Collation, RoomRow, AuditRow, bad_time, io, Result, ok, err, Conn, next_fault, drawn,
}
use ccs2_plus.Database.Statements.{id_before}

pub record RoomRecord (A : Type 0) : Type 0 where
  pub room_id : String
  pub floor : ℤ
  pub status : String
  pub stay_mode : String
  pub case_code : String
  pub controller_online : Bool
  pub remaining_minutes : ℤ
  pub last_payment_amount : A
  pub last_payment_method : String
  pub last_payment_ref : String
  pub updated_at : Time

pub record AuditRecord : Type 0 where
  pub id : String
  pub timestamp : Time
  pub room_id : String
  pub action : String
  pub actor : String
  pub result : String
  pub stay_mode : String
  pub case_code : String
  pub detail : String

-- `controllerOnline == 1`.
abbrev pub is_one : ℤ → Bool
is_one (pos n) = eqb n 1
is_one (negsuc n) = false

abbrev audit_record : AuditRow → Time → AuditRecord
audit_record row timestamp = record {
  id = row.event_id;
  timestamp = timestamp;
  room_id = row.room_id;
  action = row.action;
  actor = row.actor;
  result = row.result;
  stay_mode = row.stay_mode;
  case_code = row.case_code;
  detail = row.detail;
}

abbrev with_event : AuditRow → Option Time → Option (List AuditRecord) → Option (List AuditRecord)
with_event row none records = none
with_event row (some t) none = none
with_event row (some t) (some records) = some (audit_record row t ∷ records)

unfoldable pub scan_events : List AuditRow → Option (List AuditRecord)
scan_events [] = some []
scan_events (row ∷ rows) = with_event row (parse row.event_time) (scan_events rows)

module _ ⦃o : Collation⦄ where
  -- `ORDER BY event_time DESC, event_id DESC`.
  abbrev event_before : AuditRow → AuditRow → Bool
  event_before a b =
      o.before b.event_time a.event_time
      || (not (o.before a.event_time b.event_time) && id_before b.event_id a.event_id)

  unfoldable pub place_event : AuditRow → List AuditRow → List AuditRow
  place_event row [] = row ∷ []
  place_event row (r ∷ rows) =
      let rest = place_event row rows in if event_before r row then r ∷ rest else row ∷ r ∷ rows

  unfoldable pub sort_events : List AuditRow → List AuditRow
  sort_events [] = []
  sort_events (row ∷ rows) = place_event row (sort_events rows)

module _ {A : Type 0} where
  abbrev pub room_record : RoomRow A → Time → RoomRecord A
  room_record row updated_at = record {
    room_id = row.room_id;
    floor = row.floor;
    status = row.status;
    stay_mode = row.stay_mode;
    case_code = row.case_code;
    controller_online = is_one row.controller_online;
    remaining_minutes = row.remaining_minutes;
    last_payment_amount = row.last_payment_amount;
    last_payment_method = row.last_payment_method;
    last_payment_ref = row.last_payment_ref;
    updated_at = updated_at;
  }

  -- `ORDER BY room_id`.
  unfoldable pub place_row : RoomRow A → List (RoomRow A) → List (RoomRow A)
  place_row row [] = row ∷ []
  place_row row (r ∷ rows) =
      let rest = place_row row rows in
      if id_before r.room_id row.room_id then r ∷ rest else row ∷ r ∷ rows

  unfoldable pub sort_rows : List (RoomRow A) → List (RoomRow A)
  sort_rows [] = []
  sort_rows (row ∷ rows) = place_row row (sort_rows rows)

  abbrev pub with_room :
      RoomRow A → Option Time → Option (List (RoomRecord A)) → Option (List (RoomRecord A))
  with_room row none records = none
  with_room row (some t) none = none
  with_room row (some t) (some records) = some (room_record row t ∷ records)

  -- The loop over the rows; `none` where a time cannot be read.
  unfoldable pub scan_rooms : List (RoomRow A) → Option (List (RoomRecord A))
  scan_rooms [] = some []
  scan_rooms (row ∷ rows) = with_room row (parse row.updated_at) (scan_rooms rows)

  abbrev pub scanned : {R : Type 0} → String → Option R → Conn A → Result R × Conn A
  scanned context none c = (err (record { context = context; cause = bad_time }), c)
  scanned context (some records) c = (ok records, c)

  unfoldable pub list_rooms : Conn A → Result (List (RoomRecord A)) × Conn A
  list_rooms c =
      if next_fault c.faults
      then (err (record { context = "list rooms"; cause = io }), drawn c)
      else scanned "parse room updated_at" (scan_rooms (sort_rows c.committed.rooms)) (drawn c)

  module _ ⦃o : Collation⦄ where
    -- A limit of 0 is none.
    unfoldable pub list_recent_audit : String → ℕ → Conn A → Result (List AuditRecord) × Conn A
    list_recent_audit room_id limit c =
        let rows =
          keep (λ (row : AuditRow). (room_id == "") || (row.room_id == room_id))
            c.committed.audit_events in
        let sorted = sort_events rows in
        if next_fault c.faults
        then (err (record { context = "list audit"; cause = io }), drawn c)
        else scanned "parse audit timestamp"
            (scan_events (if eqb limit 0 then sorted else take limit sorted)) (drawn c)

    abbrev pub with_audits :
        List (RoomRecord A)
        → Result (List AuditRecord) × Conn A
        → Result (List (RoomRecord A) × List AuditRecord) × Conn A
    with_audits rooms (ok audits, c) = (ok (rooms, audits), c)
    with_audits rooms (err e, c) = (err e, c)

    abbrev pub with_rooms :
        Result (List (RoomRecord A)) × Conn A
        → Result (List (RoomRecord A) × List AuditRecord) × Conn A
    with_rooms (ok rooms, c) = with_audits rooms (list_recent_audit "" 200 c)
    with_rooms (err e, c) = (err e, c)

    unfoldable pub bootstrap : Conn A → Result (List (RoomRecord A) × List AuditRecord) × Conn A
    bootstrap c = with_rooms (list_rooms c)
