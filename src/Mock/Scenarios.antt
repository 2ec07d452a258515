-- ===== src/Mock/Scenarios.antt =====
-- What a request to the mock back end publishes in each scenario: `handleRooms` of
-- go-backend/cmd/mock-scenario/main.go, with the payloads and the handlers that only read.
use Prim.Native.String.{String, ◌++◌ as append}
use ccs2_plus.Prelude.{
  ℕ, ◌+◌, Bool, false, not, ◌&&◌, ◌||◌, Option, none, some, List, [], ◌∷◌, ◌==◌, if◌then◌else◌,
}
use ccs2_plus.Prelude.Table.{Table, lookup, insert}
use ccs2_plus.Web.Paths.{split_slash, trim_slashes, trim_prefix}
use ccs2_plus.Mock.{
  ScenarioRoom, AuditItem, ScenarioAlert, Mock, BodyValue, text, other, string_or_default,
  ActionError, Applied, applied, failed, apply_action,
}

-- The data of `room_update`.
pub record ScenarioUpdate : Type 0 where
  pub room : ScenarioRoom
  pub request_id : String
  pub action : String
  pub updated_at : String

pub data ScenarioEvent : Type 0 where
  room_update : ScenarioUpdate → ScenarioEvent
  audit_event : AuditItem → ScenarioEvent
  fraud_alert : ScenarioAlert → ScenarioEvent

abbrev zero_room : ScenarioRoom
zero_room = record {
  room_id = "";
  floor = 0;
  status = "";
  stay_mode = "";
  case_code = "";
  controller_online = false;
  remaining_minutes = none;
}

abbrev or_zero : Option ScenarioRoom → ScenarioRoom
or_zero (some room) = room
or_zero none = zero_room

abbrev pub room_payload : String → String → String → String → Mock → ScenarioUpdate
room_payload now room_id request_id action s = record {
  room = or_zero (lookup room_id s.rooms);
  request_id = request_id;
  action = action;
  updated_at = now;
}

abbrev zero_item : AuditItem
zero_item = record {
  id = "";
  timestamp = "";
  room_id = "";
  action = "";
  actor = "";
  result = "";
  stay_mode = "";
  case_code = "";
  detail = "";
}

abbrev first_item : List AuditItem → AuditItem
first_item [] = zero_item
first_item (item ∷ items) = item

abbrev pub latest_audit : Mock → AuditItem
latest_audit s = first_item s.audit

abbrev first_alert : List ScenarioAlert → List ScenarioEvent
first_alert [] = []
first_alert (alert ∷ alerts) = fraud_alert alert ∷ []

-- `if alert, ok := s.latestAlert(); ok { s.publish(…) }`.
abbrev pub latest_alert : Mock → List ScenarioEvent
latest_alert s = first_alert s.alerts

-- The events that an accepted request publishes before the handler returns.
unfoldable pub published_now : String → String → String → String → Mock → List ScenarioEvent
published_now now room_id request_id action s =
    if s.scenario == "sse-drop-after-full-state"
    then []
    else if s.scenario == "delayed-room-update" || s.scenario == "delayed-room-update-recover"
    then audit_event (latest_audit s) ∷ latest_alert s
    else room_update (room_payload now room_id request_id action s)
      ∷ audit_event (latest_audit s)
      ∷ latest_alert s

-- Whether a goroutine publishes the update of the room later, from the room that there is by then.
unfoldable pub publishes_later : Mock → Bool
publishes_later s = s.scenario == "delayed-room-update-recover"

unfoldable pub published_later : String → String → String → String → Mock → List ScenarioEvent
published_later now room_id request_id action s =
    room_update (room_payload now room_id request_id action s) ∷ []

pub record Accepted : Type 0 where
  pub request_id : String
  pub room_id : String
  pub action : String
  pub sent_at : String

pub data ScenarioReply : Type 0 where
  not_found panicked : ScenarioReply
  bad_request : String → ActionError → ScenarioReply
  accepted : Accepted → ScenarioReply

-- A request, the texts of the times that are read for the audit entry, the answer and the update, the
-- counts for ids, and the body; a body that is no object has no values.
pub record ScenarioRequest : Type 0 where
  pub method : String
  pub path : String
  pub now : String
  pub sent_at : String
  pub updated_at : String
  pub id_count : String
  pub audit_count : String
  pub body : Table BodyValue

abbrev pub after_action :
    ScenarioRequest
    → String
    → String
    → String
    → Mock
    → Applied
    → (ScenarioReply × List ScenarioEvent) × Mock
after_action r room_id action request_id s (failed e) = ((bad_request request_id e, []), s)
after_action r room_id action request_id s (applied s') = (
  (
    accepted
        (record { request_id = request_id; room_id = room_id; action = action; sent_at = r.now }),
    published_now r.updated_at room_id request_id action s',
  ),
  s',
)

abbrev pub with_action :
    ScenarioRequest
    → String
    → String
    → Mock
    → Option BodyValue
    → (ScenarioReply × List ScenarioEvent) × Mock
with_action r room_id op s none = ((panicked, []), s)
with_action r room_id op s (some other) = ((panicked, []), s)
with_action r room_id op s (some (text action)) =
    after_action r room_id action
      (string_or_default (lookup "request_id" r.body) (append "req-" r.id_count)) s
      (apply_action r.now r.audit_count room_id op action r.body s)

abbrev pub at_parts :
    ScenarioRequest → Mock → List String → (ScenarioReply × List ScenarioEvent) × Mock
at_parts r s [] = ((not_found, []), s)
at_parts r s (a ∷ []) = ((not_found, []), s)
at_parts r s (room_id ∷ op ∷ []) =
    if r.method == "POST"
    then with_action r room_id op s (lookup "action" r.body)
    else ((not_found, []), s)
at_parts r s (a ∷ b ∷ c ∷ more) = ((not_found, []), s)

-- `handleRooms` of the mock: the reply, the events, and the state after it.
unfoldable pub serve_scenario : ScenarioRequest → Mock → (ScenarioReply × List ScenarioEvent) × Mock
serve_scenario r s = at_parts r s (split_slash (trim_slashes (trim_prefix r.path "/api/rooms/")))

-- `handleAudit`: the items of a room, or all.
unfoldable pub items_of : String → List AuditItem → List AuditItem
items_of room_id [] = []
items_of room_id (item ∷ items) =
    let rest = items_of room_id items in
    if not (room_id == "") && not (item.room_id == room_id) then rest else item ∷ rest

abbrev or_none : Option ℕ → ℕ
or_none (some n) = n
or_none none = 0

-- The summary of `fullStatePayload` and `handleState`, in any order of the rooms.
unfoldable pub count_statuses : Table ScenarioRoom → Table ℕ → Table ℕ
count_statuses [] summary = summary
count_statuses ((id, room) ∷ rooms) summary =
    count_statuses rooms (insert room.status (or_none (lookup room.status summary) + 1) summary)

unfoldable pub scenario_summary : Mock → Table ℕ
scenario_summary s =
    count_statuses s.rooms
      (("vacant", 0) ∷ ("occupied", 0) ∷ ("cleaning", 0) ∷ ("overstay", 0) ∷ ("dnd", 0) ∷ [])
