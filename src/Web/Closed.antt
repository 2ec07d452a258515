-- ===== src/Web/Closed.antt =====
-- When the handler of a stream ends, and that its subscription ends with it.
use ccs2_plus.Prelude.{
  ℕ, ◌≡◌, refl, ◌∙◌, Bool, true, false, ◌||◌, Option, none, some, List, [], ◌∷◌, ◌++◌, ltb, length,
  eqb, eqb_iff, if◌then◌else◌, Bool-cases, inl, inr,
}
use ccs2_plus.StateStore.Views.{FullState}
use ccs2_plus.Events.{
  SseEvent, Channel, channel_size, EventBroker, subscribe, publish, offer, offer_all, receive,
  taken, has_channel, has_channel-unsubscribe,
}
use ccs2_plus.Events.Delivery.{publish_all}
use ccs2_plus.Web.Stream.{
  Frame, event_frame, keep_alive, Session, Turn, gone, event_ready, heartbeat, elsewhere, leave,
  written_frame, event_case, turn_of, rest_turn, step, run_turns, open_stream,
}

-- Whether the context of the request ends among the turns.
abbrev pub has_gone : List Turn → Bool
has_gone [] = false
has_gone (gone ∷ turns) = true
has_gone (event_ready ok ∷ turns) = has_gone turns
has_gone (heartbeat ok ∷ turns) = has_gone turns
has_gone (elsewhere e ∷ turns) = has_gone turns

has_channel-offer_all :
    (name : ℕ) (e : SseEvent) (channels : List Channel)
    → has_channel name (offer_all e channels) ≡ has_channel name channels
unfolding offer_all offer
has_channel-offer_all name e [] = refl
has_channel-offer_all name e (ch ∷ channels) =
    by_test (ltb (length ch.buffer) channel_size) (has_channel-offer_all name e channels)
  where
    by_test :
        (b : Bool)
        → has_channel name (offer_all e channels) ≡ has_channel name channels
        → (eqb (if b then record ch { buffer = ch.buffer ++ e ∷ [] } else ch).name name
            || has_channel name (offer_all e channels))
          ≡ (eqb ch.name name || has_channel name channels)
    by_test true same = rw same refl
    by_test false same = rw same refl

has_channel-taken :
    (name other : ℕ) (channels : List Channel)
    → has_channel other (taken name channels).1 ≡ has_channel other channels
unfolding taken
has_channel-taken name other [] = refl
has_channel-taken name other (ch ∷ channels) = elim (Bool-cases (eqb ch.name name)) [
  | inl here ↦ rw here refl
  | inr there ↦ rw (there, has_channel-taken name other channels) refl
]

-- The handler has its channel exactly while it runs.
abbrev IsOpen : Session × EventBroker → Type 0
IsOpen (s, b) = has_channel s.channel b.subscribers ≡ s.running

leave-IsOpen : (s : Session) (b : EventBroker) → IsOpen (leave s b)
leave-IsOpen s b = has_channel-unsubscribe s.channel b

publish-IsOpen :
    (e : SseEvent) (s : Session) (b : EventBroker) → IsOpen (s, b) → IsOpen (s, publish e b)
unfolding publish
publish-IsOpen e s b h = has_channel-offer_all s.channel e b.subscribers ∙ h

written_frame-IsOpen :
    (ok : Bool) (frame : Frame) (s : Session) (b : EventBroker)
    → IsOpen (s, b)
    → IsOpen (written_frame ok frame s b)
written_frame-IsOpen true frame s b h = h
written_frame-IsOpen false frame s b h = leave-IsOpen s b

event_case-IsOpen :
    (ok : Bool) (s : Session) (o : Option SseEvent) (b : EventBroker)
    → IsOpen (s, b)
    → IsOpen (event_case ok s (o, b))
event_case-IsOpen ok s none b h = h
event_case-IsOpen ok s (some e) b h = written_frame-IsOpen ok (event_frame e) s b h

turn_of-IsOpen : (t : Turn) (s : Session) (b : EventBroker) → IsOpen (s, b) → IsOpen (turn_of t s b)
unfolding receive
turn_of-IsOpen gone s b h = leave-IsOpen s b
turn_of-IsOpen (event_ready ok) s b h =
    event_case-IsOpen ok s (taken s.channel b.subscribers).0
      (record b { subscribers = (taken s.channel b.subscribers).1 })
      (has_channel-taken s.channel s.channel b.subscribers ∙ h)
turn_of-IsOpen (heartbeat ok) s b h = written_frame-IsOpen ok keep_alive s b h
turn_of-IsOpen (elsewhere e) s b h = publish-IsOpen e s b h

rest_turn-IsOpen :
    (t : Turn) (s : Session) (b : EventBroker) → IsOpen (s, b) → IsOpen (rest_turn t s b)
rest_turn-IsOpen gone s b h = h
rest_turn-IsOpen (event_ready ok) s b h = h
rest_turn-IsOpen (heartbeat ok) s b h = h
rest_turn-IsOpen (elsewhere e) s b h = publish-IsOpen e s b h

step-IsOpen : (t : Turn) (s : Session) (b : EventBroker) → IsOpen (s, b) → IsOpen (step t (s, b))
unfolding step
step-IsOpen t s b h = by_test s.running
  where
    by_test : (r : Bool) → IsOpen (if r then turn_of t s b else rest_turn t s b)
    by_test true = turn_of-IsOpen t s b h
    by_test false = rest_turn-IsOpen t s b h

run_turns-IsOpen :
    (turns : List Turn) (p : Session × EventBroker) → IsOpen p → IsOpen (run_turns turns p)
unfolding run_turns
run_turns-IsOpen [] p h = h
run_turns-IsOpen (t ∷ turns) p h = run_turns-IsOpen turns (step t p) (step-IsOpen t p.0 p.1 h)

publish_all-IsOpen :
    (events : List SseEvent) (s : Session) (b : EventBroker)
    → IsOpen (s, b)
    → IsOpen (s, publish_all events b)
unfolding publish_all
publish_all-IsOpen [] s b h = h
publish_all-IsOpen (e ∷ events) s b h =
    publish_all-IsOpen events s (publish e b) (publish-IsOpen e s b h)

open_stream-IsOpen :
    (between : List SseEvent) (ok : Bool) (state : FullState) (b : EventBroker)
    → IsOpen (open_stream between ok state b)
unfolding open_stream subscribe
open_stream-IsOpen between ok state b =
    let s : Session = record { channel = b.next; written = []; running = true } in
    written_frame-IsOpen ok _ _ (publish_all between (subscribe b).1)
      (publish_all-IsOpen between s (subscribe b).1 (rw ((eqb_iff b.next b.next).1 refl) refl))

-- A handler that has ended stays so.
step-stays :
    (t : Turn) (s : Session) (b : EventBroker)
    → s.running ≡ false
    → (step t (s, b)).0.running ≡ false
unfolding step
step-stays t s b e = by_test s.running refl
  where
    by_test :
        (r : Bool)
        → s.running ≡ r
        → (if r then turn_of t s b else rest_turn t s b).0.running ≡ false
    by_test true h = cc
    by_test false h = by_turn t
      where
        by_turn : (t : Turn) → (rest_turn t s b).0.running ≡ false
        by_turn gone = e
        by_turn (event_ready ok) = e
        by_turn (heartbeat ok) = e
        by_turn (elsewhere x) = e

run_turns-stays :
    (turns : List Turn) (p : Session × EventBroker)
    → p.0.running ≡ false
    → (run_turns turns p).0.running ≡ false
unfolding run_turns
run_turns-stays [] p e = e
run_turns-stays (t ∷ turns) p e = run_turns-stays turns (step t p) (step-stays t p.0 p.1 e)

step-gone : (s : Session) (b : EventBroker) → (step gone (s, b)).0.running ≡ false
unfolding step
step-gone s b = by_test s.running refl
  where
    by_test : (r : Bool) → s.running ≡ r → (if r then leave s b else (s, b)).0.running ≡ false
    by_test true e = refl
    by_test false e = e

run_turns-ends :
    (turns : List Turn) (p : Session × EventBroker)
    → has_gone turns ≡ true
    → (run_turns turns p).0.running ≡ false
unfolding run_turns
run_turns-ends [] p g = cc
run_turns-ends (gone ∷ turns) p g = run_turns-stays turns (step gone p) (step-gone p.0 p.1)
run_turns-ends (event_ready ok ∷ turns) p g = run_turns-ends turns (step (event_ready ok) p) g
run_turns-ends (heartbeat ok ∷ turns) p g = run_turns-ends turns (step (heartbeat ok) p) g
run_turns-ends (elsewhere e ∷ turns) p g = run_turns-ends turns (step (elsewhere e) p) g

-- Where the context of the request ends among the turns, the handler has ended after them, whatever
-- else comes and whatever writes fail, and its channel is no longer among the subscribers.
pub open_stream-ends :
    (between : List SseEvent) (ok : Bool) (state : FullState) (b : EventBroker) (turns : List Turn)
    → has_gone turns ≡ true
    → ((run_turns turns (open_stream between ok state b)).0.running ≡ false)
      × (has_channel
            (run_turns turns (open_stream between ok state b)).0.channel
            (run_turns turns (open_stream between ok state b)).1.subscribers
          ≡ false)
open_stream-ends between ok state b turns g =
    let ended = run_turns-ends turns (open_stream between ok state b) g in
    (
      ended,
      run_turns-IsOpen turns (open_stream between ok state b)
            (open_stream-IsOpen between ok state b)
          ∙ ended,
    )
