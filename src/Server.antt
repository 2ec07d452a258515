-- ===== src/Server.antt =====
-- The handlers of go-backend/internal/httpapi/server.go that change state: a decoded request goes to
-- the bus, then to the database where there is one, then to the state in memory and the subscribers.
-- A handler is one step from a server to a response and the server after it.
pub mod Handlers
pub mod Restore
pub mod Fits
pub mod Start
pub mod Unchanged
pub mod Agreement
pub mod Mirror
pub mod Matches
pub mod Mirrored
pub mod Restart
use ccs2_plus.Prelude.{
  ℕ, ◌+◌, ◌-◌, ◌*◌, ◌^◌, String, append, Bool, true, false, Option, none, some, ◌==◌, ◌||◌,
  if◌then◌else◌, decimal, hex_bytes,
}
use ccs2_plus.Prelude.Int.{ℤ, pos, ◌+ℤ◌, ltb_ℤ, wrap}
use ccs2_plus.Prelude.Float.{Float64}
use ccs2_plus.Legacy.{SemanticState, semantic_vacant, semantic_occupied, semantic_cleaning}
use ccs2_plus.Transport
use ccs2_plus.Transport.{
  CommandIntent, CommandResult, Service, IntentError, IntentResult, apply_intent,
}
use ccs2_plus.StateStore.{
  RoomState, AuditEvent, AlertItem, StateStore, check_in_minutes, get, apply_check_in,
  apply_check_out, apply_command, apply_extend, apply_payment,
}
use ccs2_plus.StateStore.Audit.{append_audit, alert_for_audit}
use ccs2_plus.StateStore.Views.{room_update_payload}
use ccs2_plus.Database
use ccs2_plus.Database.{Collation, Conn, Result, Action, StoreError}
use ccs2_plus.Database.Record
use ccs2_plus.Database.Record.{
  record_check_in, record_check_out, record_extend, record_payment, record_command,
}
use ccs2_plus.Events.{EventBroker, publish, audit_event, room_update, fraud_alert}

pub record CheckInRequest (A : Type 0) : Type 0 where
  pub request_id : String
  pub action : String
  pub stay_mode : String
  pub case_code : String
  pub stay_hours : ℤ
  pub payment_amount : A
  pub payment_ref : String

pub record CheckoutRequest : Type 0 where
  pub request_id : String
  pub action : String

pub record RoomCommandRequest : Type 0 where
  pub request_id : String
  pub action : String
  pub source : String
  pub actor : String
  pub reason : String
  pub service_type : String

pub record ExtendRequest (A : Type 0) : Type 0 where
  pub request_id : String
  pub action : String
  pub stay_mode : String
  pub case_code : String
  pub extend_minutes : ℤ
  pub payment_amount : A
  pub payment_ref : String

pub record PaymentRequest (A : Type 0) : Type 0 where
  pub request_id : String
  pub action : String
  pub amount : A
  pub method : String
  pub reference : String

-- The map that `apply` makes of a result; the status is "accepted".
pub record CommandReply : Type 0 where
  pub request_id : String
  pub room_id : String
  pub action : String
  pub status : String
  pub stay_mode : String
  pub case_code : String
  pub target_state : String
  pub slave_frame : String
  pub display_frame : String
  pub sent_at : ℕ

-- What the text of an error response tells of.
pub data Reason : Type 0 where
  bad_json room_missing : Reason
  unsupported_action : String → Reason
  transport : IntentError → Reason
  database : StoreError → Reason

pub data Response (A : Type 0) : Type 0 where
  applied : CommandReply → Response A
  commanded : (request_id room_id action detail : String) (sent_at : ℕ) → Response A
  paid :
      (request_id room_id : String) (amount : A) (method reference stay_mode case_code : String)
      (paid_at : ℕ)
      → Response A
  failure : (status : ℕ) (code : String) (reason : Reason) (request_id : String) → Response A

pub record Server (A : Type 0) : Type 0 where
  pub state : StateStore A
  pub transport : Service
  pub store : Option (Conn A)
  pub events : EventBroker

-- What `time.Now()` returns at its calls in a handler, in their order: for a missing request id, at
-- the end of `ApplyIntent`, in the handler, and in the update of the state.
pub record Clock : Type 0 where
  pub asked : ℕ
  pub sent : ℕ
  pub now : ℕ
  pub updated : ℕ

-- The zero of `UnixNano`, 1 January 1970, as a `Time`.
abbrev pub unix_epoch : ℕ
unix_epoch = 62135596800 * 10 ^ 9

unfoldable pub request_id_or_now : String → ℕ → String
request_id_or_now request_id now =
    if request_id == "" then append "req-" (decimal (now - unix_epoch)) else request_id

abbrev pub fallback_case : String → String → String
fallback_case case_code stay_mode = if case_code == "" then stay_mode else case_code

abbrev pub fallback_actor : String → String → String
fallback_actor actor source =
    if actor == "" then (if source == "" then "system" else source) else actor

abbrev pub fallback_detail : String → String → String
fallback_detail reason service_type = if service_type == "" then reason else service_type

-- `commandIntentFromAction`; `none` for an action that is not supported.
unfoldable pub command_intent_from_action : String → RoomCommandRequest → ℕ → Option CommandIntent
command_intent_from_action room_id req now =
    let intent : SemanticState → CommandIntent = λ target. record {
      request_id = request_id_or_now req.request_id now;
      room_id = room_id;
      action = req.action;
      target_state = target;
      stay_mode = "";
      case_code = "";
    } in
    if req.action == "start_cleaning"
    then some (intent semantic_cleaning)
    else if req.action == "finish_cleaning"
    then some (intent semantic_vacant)
    else if req.action == "open_room" || req.action == "service"
    then some (intent semantic_occupied)
    else none

abbrev pub reply : CommandResult → CommandReply
reply result = record {
  request_id = result.request_id;
  room_id = result.room_id;
  action = result.action;
  status = "accepted";
  stay_mode = result.stay_mode;
  case_code = result.case_code;
  target_state = result.target_state;
  slave_frame = hex_bytes result.slave_frame;
  display_frame = hex_bytes result.display_frame;
  sent_at = result.sent_at;
}

-- An audit event with the result "accepted".
abbrev pub accepted : String → ℕ → String → String → String → String → String → String → AuditEvent
accepted id now room_id action actor stay_mode case_code detail = record {
  id = id;
  timestamp = now;
  room_id = room_id;
  action = action;
  actor = actor;
  result = "accepted";
  stay_mode = stay_mode;
  case_code = case_code;
  detail = detail;
}

module _ {A : Type 0} where
  -- `appendAudit`, `publishAuditEvent` and the alert of an "open_room" or "service" command.
  unfoldable pub audited : AuditEvent → Server A → AuditEvent × Server A
  audited entry s =
      let (stored, state) = append_audit entry s.state in
      (stored, record s { state = state; events = publish (audit_event stored) s.events })

  unfoldable pub alerted : AuditEvent → Server A → Server A
  alerted stored s = elim (alert_for_audit s.state stored) [
    | none ↦ s
    | some alert ↦ record s { events = publish (fraud_alert alert) s.events }
  ]

  -- `publishRoomUpdate`.
  unfoldable pub updated : String → String → String → Server A → Server A
  updated room_id request_id action s = record s {
    events = publish (room_update (room_update_payload s.state room_id request_id action)) s.events;
  }

  -- The end of a handler: the update of the state, the audit event, and the room's update.
  unfoldable pub conclude : (StateStore A → StateStore A) → AuditEvent → Server A → Server A
  conclude change entry s =
      let (stored, s') = audited entry (record s { state = change s.state }) in
      updated entry.room_id entry.id entry.action s'

  -- The call of the store, where there is one.
  unfoldable pub record_in : Action A Unit → Server A → Result Unit × Server A
  record_in action s = elim s.store [
    | none ↦ (Database.ok tt, s)
    | some conn ↦ (let (r, conn') = action conn in (r, record s { store = some conn' }))
  ]

  -- The response to the result of the store's call.
  unfoldable pub recorded :
      Result Unit × Server A → String → Response A → (Server A → Server A) → Response A × Server A
  recorded (Database.ok r, s) request_id response finish = (response, finish s)
  recorded (Database.err e, s) request_id response finish =
      (failure 500 "DB_WRITE_FAILED" (database e) request_id, s)
