-- ===== src/Web/Ordered.antt =====
-- What a client of the stream is sent: the full state, and then events published since the subscription, in their order.
use ccs2_plus.Prelude.{
  ℕ, ◌≡◌, refl, sym, ap, ◌∙◌, ◌⊎◌, Bool, true, false, Option, none, some, List, [], ◌∷◌, ◌++◌,
  length, ltb, eqb, eqb_iff, if◌then◌else◌, arith, append-cons, append-nil, Bool-cases, inl, inr,
}
use mathlib.Core.Path.{subst}
use ccs2_plus.Prelude.Among.{Among, done, both, Among-more, Among-both, Among-cut, append_assoc}
use ccs2_plus.StateStore.Views.{FullState}
use ccs2_plus.Events.{
  SseEvent, full_state, Channel, channel_size, EventBroker, subscribe, unsubscribe, publish, offer,
  offer_all, receive, taken, rest_of, first_of,
}
use ccs2_plus.Events.Delivery.{publish_all}
use ccs2_plus.Web.Stream.{
  Frame, event_frame, keep_alive, Session, Turn, gone, event_ready, heartbeat, elsewhere, leave,
  written_frame, event_case, turn_of, rest_turn, step, run_turns, open_stream,
}

-- The events among the frames.
abbrev pub events_in : List Frame → List SseEvent
events_in [] = []
events_in (event_frame e ∷ frames) = e ∷ events_in frames
events_in (keep_alive ∷ frames) = events_in frames

-- The events that other requests publish.
abbrev pub published : List Turn → List SseEvent
published [] = []
published (elsewhere e ∷ turns) = e ∷ published turns
published (gone ∷ turns) = published turns
published (event_ready ok ∷ turns) = published turns
published (heartbeat ok ∷ turns) = published turns

events_in-append : (xs ys : List Frame) → events_in (xs ++ ys) ≡ events_in xs ++ events_in ys
events_in-append [] ys = refl
events_in-append (event_frame e ∷ xs) ys = ap (λ l. e ∷ l) (events_in-append xs ys)
events_in-append (keep_alive ∷ xs) ys = events_in-append xs ys

-- What waits in the channel of a name.
abbrev waiting : ℕ → List Channel → List SseEvent
waiting name [] = []
waiting name (ch ∷ channels) =
    let rest = waiting name channels in if eqb ch.name name then ch.buffer else rest

-- An event reaches the channel or is dropped.
waiting-offer :
    (name : ℕ) (e : SseEvent) (ch : Channel) (rest rest' : List SseEvent)
    → (rest' ≡ rest) ⊎ (rest' ≡ rest ++ e ∷ [])
    → ((if eqb (offer e ch).name name then (offer e ch).buffer else rest')
        ≡ (if eqb ch.name name then ch.buffer else rest))
      ⊎ ((if eqb (offer e ch).name name then (offer e ch).buffer else rest')
          ≡ (if eqb ch.name name then ch.buffer else rest) ++ e ∷ [])
unfolding offer
waiting-offer name e ch rest rest' h = by_tests (ltb (length ch.buffer) channel_size)
  where
    by_tests :
        (room : Bool)
        → ((if eqb (if room then record ch { buffer = ch.buffer ++ e ∷ [] } else ch).name name
              then (if room then record ch { buffer = ch.buffer ++ e ∷ [] } else ch).buffer
              else rest')
            ≡ (if eqb ch.name name then ch.buffer else rest))
          ⊎ ((if eqb (if room then record ch { buffer = ch.buffer ++ e ∷ [] } else ch).name name
                then (if room then record ch { buffer = ch.buffer ++ e ∷ [] } else ch).buffer
                else rest')
              ≡ (if eqb ch.name name then ch.buffer else rest) ++ e ∷ [])
    by_tests true = elim (Bool-cases (eqb ch.name name)) [
      | inl here ↦ inr (rw here refl)
      | inr there ↦ rw there h
    ]
    by_tests false = elim (Bool-cases (eqb ch.name name)) [
      | inl here ↦ inl (rw here refl)
      | inr there ↦ rw there h
    ]

waiting-offer_all :
    (name : ℕ) (e : SseEvent) (channels : List Channel)
    → (waiting name (offer_all e channels) ≡ waiting name channels)
      ⊎ (waiting name (offer_all e channels) ≡ waiting name channels ++ e ∷ [])
unfolding offer_all
waiting-offer_all name e [] = inl refl
waiting-offer_all name e (ch ∷ channels) =
    waiting-offer name e ch _ _ (waiting-offer_all name e channels)

waiting-taken :
    (name : ℕ) (channels : List Channel)
    → ((taken name channels).0 ≡ first_of (waiting name channels))
      × (waiting name (taken name channels).1 ≡ rest_of (waiting name channels))
unfolding taken
waiting-taken name [] = (refl, refl)
waiting-taken name (ch ∷ channels) = elim (Bool-cases (eqb ch.name name)) [
  | inl here ↦ rw here (refl, rw here refl)
  | inr there ↦
      rw there ((waiting-taken name channels).0, rw there ((waiting-taken name channels).1))
]

-- What has been written, and what waits for a handler that runs, stands among the events.
abbrev Sent : Session × EventBroker → List SseEvent → Type 0
Sent (s, b) all =
    Among (events_in s.written ++ (if s.running then waiting s.channel b.subscribers else [])) all

leave-Sent :
    (s : Session) (c : EventBroker) (rest all : List SseEvent)
    → Among (events_in s.written ++ rest) all
    → Sent (leave s c) all
leave-Sent s c rest all a =
    subst (λ l. Among l all) (sym (append-nil (events_in s.written)))
      (Among-cut (events_in s.written) rest a)

publish-Sent :
    (s : Session) (b : EventBroker) (e : SseEvent) (all : List SseEvent)
    → Sent (s, b) all
    → Sent (s, publish e b) (all ++ e ∷ [])
unfolding publish
publish-Sent s b e all a = by_test s.running a
  where
    by_test :
        (r : Bool)
        → Among (events_in s.written ++ (if r then waiting s.channel b.subscribers else [])) all
        → Among
            (events_in s.written
              ++ (if r then waiting s.channel (offer_all e b.subscribers) else []))
            (all ++ e ∷ [])
    by_test false a = Among-more e a
    by_test true a = elim (waiting-offer_all s.channel e b.subscribers) [
      | inl same ↦ rw same (Among-more e a)
      | inr more ↦ rw (more, append_assoc) (Among-both e a)
    ]

written_frame-Sent :
    (ok : Bool) (frame : Frame) (s : Session) (b : EventBroker) (all : List SseEvent)
    → s.running ≡ true
    → Among (events_in (s.written ++ frame ∷ []) ++ waiting s.channel b.subscribers) all
    → Among (events_in s.written) all
    → Sent (written_frame ok frame s b) all
written_frame-Sent true frame s b all r a h = rw r a
written_frame-Sent false frame s b all r a h =
    subst (λ l. Among l all) (sym (append-nil (events_in s.written))) h

event_case-Sent :
    (ok : Bool) (s : Session) (c : EventBroker) (o : Option SseEvent) (w all : List SseEvent)
    → s.running ≡ true
    → o ≡ first_of w
    → waiting s.channel c.subscribers ≡ rest_of w
    → Among (events_in s.written ++ w) all
    → Sent (event_case ok s (o, c)) all
event_case-Sent ok s c none [] all r first rest a = rw (r, rest) a
event_case-Sent ok s c none (x ∷ w) all r first rest a = cc
event_case-Sent ok s c (some e) [] all r first rest a = cc
event_case-Sent ok s c (some e) (x ∷ w) all r first rest a =
    let same : e ≡ x = ground arith in
    let here : Among (events_in s.written ++ e ∷ w) all =
      subst (λ y. Among (events_in s.written ++ y ∷ w) all) (sym same) a in
    written_frame-Sent ok (event_frame e) s c all r
      (rw (events_in-append s.written (event_frame e ∷ []), rest, append-cons) here)
      (Among-cut (events_in s.written) (e ∷ w) here)

turn_of-Sent :
    (t : Turn) (s : Session) (b : EventBroker) (all : List SseEvent)
    → s.running ≡ true
    → Among (events_in s.written ++ waiting s.channel b.subscribers) all
    → Sent (turn_of t s b) (all ++ published (t ∷ []))
unfolding receive
turn_of-Sent gone s b all r a =
    rw (append-nil all)
      (leave-Sent s (unsubscribe s.channel b) (waiting s.channel b.subscribers) all a)
turn_of-Sent (event_ready ok) s b all r a =
    let (first, rest) = waiting-taken s.channel b.subscribers in
    rw (append-nil all) (
      event_case-Sent ok s (record b { subscribers = (taken s.channel b.subscribers).1 })
        (taken s.channel b.subscribers).0 (waiting s.channel b.subscribers) all r first rest a)
turn_of-Sent (heartbeat ok) s b all r a = rw (append-nil all) (
    written_frame-Sent ok keep_alive s b all r
      (rw (events_in-append s.written (keep_alive ∷ []), append-nil (events_in s.written)) a)
      (Among-cut (events_in s.written) _ a))
turn_of-Sent (elsewhere e) s b all r a = publish-Sent s b e all (rw r a)

rest_turn-Sent :
    (t : Turn) (s : Session) (b : EventBroker) (all : List SseEvent)
    → Sent (s, b) all
    → Sent (rest_turn t s b) (all ++ published (t ∷ []))
rest_turn-Sent gone s b all a = rw (append-nil all) a
rest_turn-Sent (event_ready ok) s b all a = rw (append-nil all) a
rest_turn-Sent (heartbeat ok) s b all a = rw (append-nil all) a
rest_turn-Sent (elsewhere e) s b all a = publish-Sent s b e all a

step-Sent :
    (t : Turn) (s : Session) (b : EventBroker) (all : List SseEvent)
    → Sent (s, b) all
    → Sent (step t (s, b)) (all ++ published (t ∷ []))
unfolding step
step-Sent t s b all a = by_test s.running refl
  where
    by_test :
        (r : Bool)
        → s.running ≡ r
        → Sent (if r then turn_of t s b else rest_turn t s b) (all ++ published (t ∷ []))
    by_test true e = turn_of-Sent t s b all e (
        subst
          (λ r.
            Among (events_in s.written ++ (if r then waiting s.channel b.subscribers else [])) all)
          e a)
    by_test false e = rest_turn-Sent t s b all a

published-cons :
    (t : Turn) (ts : List Turn) → published (t ∷ ts) ≡ published (t ∷ []) ++ published ts
published-cons gone ts = refl
published-cons (event_ready ok) ts = refl
published-cons (heartbeat ok) ts = refl
published-cons (elsewhere e) ts = refl

run_turns-Sent :
    (turns : List Turn) (p : Session × EventBroker) (all : List SseEvent)
    → Sent p all
    → Sent (run_turns turns p) (all ++ published turns)
unfolding run_turns
run_turns-Sent [] p all a = rw (append-nil all) a
run_turns-Sent (t ∷ turns) p all a =
    subst (λ l. Sent (run_turns turns (step t p)) l)
      (sym (append_assoc all (published (t ∷ [])) (published turns))
        ∙ ap (λ l. all ++ l) (sym (published-cons t turns)))
      (run_turns-Sent turns (step t p) (all ++ published (t ∷ [])) (step-Sent t p.0 p.1 all a))

publish_all-Sent :
    (s : Session) (events : List SseEvent) (b : EventBroker) (all : List SseEvent)
    → Sent (s, b) all
    → Sent (s, publish_all events b) (all ++ events)
unfolding publish_all
publish_all-Sent s [] b all a = rw (append-nil all) a
publish_all-Sent s (e ∷ events) b all a =
    subst (Sent (s, publish_all events (publish e b))) (sym (append_assoc all (e ∷ []) events))
      (publish_all-Sent s events (publish e b) (all ++ e ∷ []) (publish-Sent s b e all a))

open_stream-Sent :
    (between : List SseEvent) (ok : Bool) (state : FullState) (b : EventBroker)
    → Sent (open_stream between ok state b) (full_state state ∷ between)
unfolding open_stream subscribe
open_stream-Sent between true state b = both (
    publish_all-Sent (record { channel = b.next; written = []; running = true }) between
      (subscribe b).1 []
      (let here : eqb b.next b.next ≡ true = (eqb_iff b.next b.next).1 refl in rw here done))
open_stream-Sent between false state b = done

-- Whatever the turns of the handler and the other requests, also between its subscription and its first
-- write, and whatever writes fail, a client is sent no events but the full state and then some of the
-- events that are published after the subscription, each at most once and in their order.
pub open_stream-Among :
    (between : List SseEvent) (ok : Bool) (state : FullState) (b : EventBroker) (turns : List Turn)
    → Among
        (events_in (run_turns turns (open_stream between ok state b)).0.written)
        (full_state state ∷ (between ++ published turns))
open_stream-Among between ok state b turns =
    let p = run_turns turns (open_stream between ok state b) in
    Among-cut (events_in p.0.written) _ (
      run_turns-Sent turns (open_stream between ok state b) (full_state state ∷ between)
        (open_stream-Sent between ok state b))
