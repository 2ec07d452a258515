-- ===== src/Examples/Channels.antt =====
-- Tests of the broker, and an instance of its theorem.
use ccs2_plus.Prelude.{◌≡◌, List, [], ◌∷◌, arith}
use ccs2_plus.StateStore.{AuditEvent}
use ccs2_plus.Events.{SseEvent, audit_event, EventBroker}
use ccs2_plus.Events.Delivery.{publish_all, waiting, fitting, publish_all-fitting}

abbrev entry : AuditEvent
entry = record {
  id = "a1";
  timestamp = 40;
  room_id = "1205";
  action = "open_room";
  actor = "system";
  result = "accepted";
  stay_mode = "";
  case_code = "";
  detail = "";
}

abbrev five : List SseEvent
five =
    audit_event entry
    ∷ audit_event entry
    ∷ audit_event entry
    ∷ audit_event entry
    ∷ audit_event entry
    ∷ []

-- A channel with fifteen events and one with none.
abbrev busy : EventBroker
busy = record {
  subscribers =
      (record {
        name = 0;
        buffer =
            audit_event entry
            ∷ audit_event entry
            ∷ audit_event entry
            ∷ audit_event entry
            ∷ audit_event entry
            ∷ audit_event entry
            ∷ audit_event entry
            ∷ audit_event entry
            ∷ audit_event entry
            ∷ audit_event entry
            ∷ five;
      })
      ∷ (record { name = 1; buffer = [] })
      ∷ [];
  next = 2;
}

publish_all-fitting_example :
    waiting (publish_all five busy).subscribers ≡ fitting five busy.subscribers
publish_all-fitting_example = publish_all-fitting five busy (omega arith, (omega arith, tt))
