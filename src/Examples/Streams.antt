-- ===== src/Examples/Streams.antt =====
-- A stream with one client, and the instance of its theorem; the requests to the mock back end.
use ccs2_plus.Prelude.{◌≡◌, refl, true, false, List, [], ◌∷◌, ◌++◌}
use ccs2_plus.Prelude.Among.{Among}
use ccs2_plus.StateStore.{AuditEvent}
use ccs2_plus.StateStore.Views.{FullState}
use ccs2_plus.Events.{SseEvent, full_state, audit_event, fraud_alert, new_event_broker, has_channel}
use ccs2_plus.Web.Stream.{Turn, gone, event_ready, heartbeat, elsewhere, run_turns, open_stream}
use ccs2_plus.Web.Closed.{open_stream-ends}
use ccs2_plus.Web.Ordered.{events_in, published, open_stream-Among}
use ccs2_plus.Mock.{new_mock, text}
use ccs2_plus.Mock.Scenarios.{ScenarioRequest}
use ccs2_plus.Mock.Steady.{IsSound, serve_scenarios, serve_scenarios-IsSound}

abbrev entry : AuditEvent
entry = record {
  id = "a1";
  timestamp = 40;
  room_id = "1205";
  action = "open_room";
  actor = "system";
  result = "accepted";
  stay_mode = "";
  case_code = "";
  detail = "";
}

abbrev no_rooms : FullState
no_rooms = record { rooms = []; summary = [] }

-- An event that comes between the subscription and the first write.
abbrev alarm : SseEvent
alarm = audit_event (record entry { id = "a0" })

abbrev between : List SseEvent
between = alarm ∷ []

-- Two more events come, the first of all is written, a heartbeat fails, and a third event comes after it.
abbrev turns : List Turn
turns =
    elsewhere (audit_event entry)
    ∷ elsewhere (audit_event (record entry { id = "a2" }))
    ∷ event_ready true
    ∷ heartbeat false
    ∷ elsewhere (audit_event entry)
    ∷ event_ready true
    ∷ gone
    ∷ []

writes_two :
    events_in (run_turns turns (open_stream between true no_rooms new_event_broker)).0.written
    ≡ full_state no_rooms ∷ alarm ∷ []
unfolding run_turns open_stream ccs2_plus.Web.Stream.step ccs2_plus.Events.subscribe
    ccs2_plus.Events.unsubscribe ccs2_plus.Events.publish ccs2_plus.Events.receive
    ccs2_plus.Events.taken ccs2_plus.Events.offer_all ccs2_plus.Events.offer
    ccs2_plus.Events.Delivery.publish_all
writes_two = refl

open_stream-Among_example :
    Among
      (events_in (run_turns turns (open_stream between true no_rooms new_event_broker)).0.written)
      (full_state no_rooms ∷ (between ++ published turns))
open_stream-Among_example = open_stream-Among between true no_rooms new_event_broker turns

open_stream-ends_example :
    ((run_turns turns (open_stream between true no_rooms new_event_broker)).0.running ≡ false)
    × (has_channel
          (run_turns turns (open_stream between true no_rooms new_event_broker)).0.channel
          (run_turns turns (open_stream between true no_rooms new_event_broker)).1.subscribers
        ≡ false)
open_stream-ends_example = open_stream-ends between true no_rooms new_event_broker turns refl

abbrev check_in : ScenarioRequest
check_in = record {
  method = "POST";
  path = "/api/rooms/1205/checkin";
  now = "2026-05-01T12:00:00Z";
  sent_at = "2026-05-01T12:00:00Z";
  updated_at = "2026-05-01T12:00:01Z";
  id_count = "1";
  audit_count = "2";
  body = ("action", text "check_in") ∷ ("stay_mode", text "hourly") ∷ [];
}

abbrev open_room : ScenarioRequest
open_room = record check_in {
  path = "/api/rooms/1205/command";
  body = ("action", text "open_room") ∷ [];
}

serve_scenarios-IsSound_example :
    IsSound (serve_scenarios (check_in ∷ open_room ∷ []) (new_mock "delayed-room-update"))
serve_scenarios-IsSound_example =
    serve_scenarios-IsSound "delayed-room-update" (check_in ∷ open_room ∷ [])
