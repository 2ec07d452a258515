-- ===== src/Web/Stream.antt =====
-- The stream of handleEvents in go-backend/internal/httpapi/events.go for one client. Between the turns
-- of its loop other requests publish events; `select` takes any of the cases that are ready.
use ccs2_plus.Prelude.{ℕ, Bool, true, false, Option, none, some, List, [], ◌∷◌, ◌++◌, if◌then◌else◌}
use ccs2_plus.StateStore.Views.{FullState}
use ccs2_plus.Events.Delivery.{publish_all}
use ccs2_plus.Events.{SseEvent, full_state, EventBroker, subscribe, unsubscribe, publish, receive}

-- What is written to the connection: an event, or the comment of the heartbeat.
pub data Frame : Type 0 where
  event_frame : SseEvent → Frame
  keep_alive : Frame

-- The handler while it runs: the channel of its subscription and what it has written.
pub record Session : Type 0 where
  pub channel : ℕ
  pub written : List Frame
  pub running : Bool

-- A turn: the context of the request is done, an event or the heartbeat comes and is written (`true`)
-- or the write fails, or another request publishes an event.
pub data Turn : Type 0 where
  gone : Turn
  event_ready : Bool → Turn
  heartbeat : Bool → Turn
  elsewhere : SseEvent → Turn

-- The return from the handler, with the deferred `unsubscribe`.
abbrev pub leave : Session → EventBroker → Session × EventBroker
leave s b = (record s { running = false }, unsubscribe s.channel b)

-- `writeSSE`, or the write of the heartbeat: an error ends the handler.
abbrev pub written_frame : Bool → Frame → Session → EventBroker → Session × EventBroker
written_frame true frame s b = (record s { written = s.written ++ frame ∷ [] }, b)
written_frame false frame s b = leave s b

-- `case event := <-ch`, which waits while the channel is empty.
abbrev pub event_case : Bool → Session → Option SseEvent × EventBroker → Session × EventBroker
event_case ok s (none, b) = (s, b)
event_case ok s (some event, b) = written_frame ok (event_frame event) s b

abbrev pub turn_of : Turn → Session → EventBroker → Session × EventBroker
turn_of gone s b = leave s b
turn_of (event_ready ok) s b = event_case ok s (receive s.channel b)
turn_of (heartbeat ok) s b = written_frame ok keep_alive s b
turn_of (elsewhere event) s b = (s, publish event b)

-- A handler that has returned takes no more turns; the others go on.
abbrev pub rest_turn : Turn → Session → EventBroker → Session × EventBroker
rest_turn (elsewhere event) s b = (s, publish event b)
rest_turn gone s b = (s, b)
rest_turn (event_ready ok) s b = (s, b)
rest_turn (heartbeat ok) s b = (s, b)

unfoldable pub step : Turn → Session × EventBroker → Session × EventBroker
step t (s, b) = if s.running then turn_of t s b else rest_turn t s b

unfoldable pub run_turns : List Turn → Session × EventBroker → Session × EventBroker
run_turns [] p = p
run_turns (t ∷ turns) p = run_turns turns (step t p)

-- The start of the handler: it subscribes, other requests may publish before it reads the full state, and
-- then that state is the first that it writes.
unfoldable pub open_stream : List SseEvent → Bool → FullState → EventBroker → Session × EventBroker
open_stream between ok state b =
    let (channel, b') = subscribe b in
    written_frame ok (event_frame (full_state state))
      (record { channel = channel; written = []; running = true }) (publish_all between b')
