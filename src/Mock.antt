-- ===== src/Mock.antt =====
-- The mock back end of go-backend/cmd/mock-scenario/main.go, with which the apps are tried: its rooms,
-- its lists, and what each scenario publishes after a request. The time and the nanosecond count are
-- arguments, as texts; a channel of a client is the one of the broker, with its own events.
pub mod Scenarios
pub mod Steady
use Prim.Native.String.{String, ◌++◌ as append}
use ccs2_plus.Prelude.{
  ℕ, Bool, true, false, not, ◌&&◌, Option, none, some, List, [], ◌∷◌, ◌==◌, if◌then◌else◌,
}
use ccs2_plus.Prelude.Table.{Table, lookup, insert}

pub record ScenarioRoom : Type 0 where
  pub room_id : String
  pub floor : ℕ
  pub status : String
  pub stay_mode : String
  pub case_code : String
  pub controller_online : Bool
  pub remaining_minutes : Option ℕ

pub record AuditItem : Type 0 where
  pub id : String
  pub timestamp : String
  pub room_id : String
  pub action : String
  pub actor : String
  pub result : String
  pub stay_mode : String
  pub case_code : String
  pub detail : String

pub record ScenarioAlert : Type 0 where
  pub id : String
  pub timestamp : String
  pub room_id : String
  pub severity : String
  pub rule_code : String
  pub status : String
  pub title : String
  pub detail : String

-- `server`, less the channels of the clients.
pub record Mock : Type 0 where
  pub scenario : String
  pub rooms : Table ScenarioRoom
  pub audit : List AuditItem
  pub alerts : List ScenarioAlert

-- `newServer`.
abbrev pub new_mock : String → Mock
new_mock scenario = record {
  scenario = scenario;
  rooms =
      (
        "1205",
        record {
          room_id = "1205";
          floor = 12;
          status = "vacant";
          stay_mode = "";
          case_code = "";
          controller_online = true;
          remaining_minutes = some 120;
        },
      )
      ∷ [];
  audit = [];
  alerts = [];
}

-- A value of the decoded body: a text, or anything else.
pub data BodyValue : Type 0 where
  text : String → BodyValue
  other : BodyValue

abbrev pub non_empty : String → String → String
non_empty value fallback = if value == "" then fallback else value

abbrev pub string_or_default : Option BodyValue → String → String
string_or_default (some (text value)) fallback = non_empty value fallback
string_or_default (some other) fallback = fallback
string_or_default none fallback = fallback

pub data ActionError : Type 0 where
  room_not_found unsupported_action unsupported_route : String → ActionError

pub data Applied : Type 0 where
  applied : Mock → Applied
  failed : ActionError → Applied

pub data Changed : Type 0 where
  changed : ScenarioRoom → Changed
  unchanged : ActionError → Changed

-- `case "checkin"`.
abbrev pub taken_in : Table BodyValue → ScenarioRoom → ScenarioRoom
taken_in body room =
    let stay_mode = string_or_default (lookup "stay_mode" body) "overnight" in
    record room {
      status = "occupied";
      stay_mode = stay_mode;
      case_code = string_or_default (lookup "case" body) stay_mode;
    }

abbrev pub cleared_room : ScenarioRoom → ScenarioRoom
cleared_room room = record room { status = "vacant"; stay_mode = ""; case_code = "" }

-- `case "extend"`.
abbrev pub prolonged : Table BodyValue → ScenarioRoom → ScenarioRoom
prolonged body room =
    let stay_mode = string_or_default (lookup "stay_mode" body) "" in
    if stay_mode == "" then record room { status = "occupied" } else record room {
      status = "occupied";
      stay_mode = stay_mode;
      case_code = string_or_default (lookup "case" body) stay_mode;
    }

-- `case "command"`.
abbrev pub by_action : String → ScenarioRoom → Changed
by_action action room =
    if action == "start_cleaning"
    then changed (record room { status = "cleaning" })
    else if action == "finish_cleaning"
    then changed (cleared_room room)
    else if action == "open_room"
    then changed room
    else if action == "service"
    then changed room
    else unchanged (unsupported_action action)

-- The switch of `applyAction`.
abbrev pub by_op : String → String → Table BodyValue → ScenarioRoom → Changed
by_op op action body room =
    if op == "checkin"
    then changed (taken_in body room)
    else if op == "checkout"
    then changed (cleared_room room)
    else if op == "extend"
    then changed (prolonged body room)
    else if op == "payment"
    then changed room
    else if op == "command"
    then by_action action room
    else unchanged (unsupported_route op)

-- The entry of the audit list; `count` is the time in nanoseconds.
abbrev pub audit_item :
    String → String → String → String → Table BodyValue → ScenarioRoom → AuditItem
audit_item now count room_id action body room = record {
  id = string_or_default (lookup "request_id" body) (append "req-" count);
  timestamp = now;
  room_id = room_id;
  action = action;
  actor =
      string_or_default (lookup "actor" body) (string_or_default (lookup "source" body) "tester");
  result = "accepted";
  stay_mode = room.stay_mode;
  case_code = room.case_code;
  detail =
      string_or_default (lookup "reason" body) (string_or_default (lookup "service_type" body) "");
}

abbrev pub open_room_while_vacant : String → String → Table BodyValue → ScenarioAlert
open_room_while_vacant now room_id body = record {
  id = append "alert-open-room-" (string_or_default (lookup "request_id" body) "mock");
  timestamp = now;
  room_id = room_id;
  severity = "high";
  rule_code = "OPEN_ROOM_WHILE_VACANT";
  status = "open";
  title = "Open room while vacant";
  detail = "Open-room event was recorded while room state remained vacant.";
}

-- The rest of `applyAction` after its switch.
abbrev pub noted : String → String → String → String → Table BodyValue → Mock → Changed → Applied
noted now count room_id action body s (unchanged e) = failed e
noted now count room_id action body s (changed room) = applied (record s {
  rooms = insert room_id room s.rooms;
  audit = audit_item now count room_id action body room ∷ s.audit;
  alerts =
      if action == "open_room" && room.status == "vacant"
      then open_room_while_vacant now room_id body ∷ s.alerts
      else s.alerts;
})

abbrev pub apply_to :
    String
    → String
    → String
    → String
    → String
    → Table BodyValue
    → Mock
    → Option ScenarioRoom
    → Applied
apply_to now count room_id op action body s none = failed (room_not_found room_id)
apply_to now count room_id op action body s (some room) =
    noted now count room_id action body s (by_op op action body room)

unfoldable pub apply_action :
    String → String → String → String → String → Table BodyValue → Mock → Applied
apply_action now count room_id op action body s =
    apply_to now count room_id op action body s (lookup room_id s.rooms)
