-- ===== src/Events.antt =====
-- The broker of go-backend/internal/httpapi/events.go: each subscriber has a channel with room for 16
-- events, and an event that finds the channel full is dropped for that subscriber.
pub mod Delivery
use ccs2_plus.Prelude.{
  ℕ, ◌+◌, String, Bool, true, false, not, Option, none, some, List, [], ◌∷◌, ◌++◌, ltb, eqb,
  if◌then◌else◌, length, ◌||◌, ◌≡◌, refl, Bool-cases, inl, inr,
}
use ccs2_plus.StateStore.{AuditEvent, AlertItem}
use ccs2_plus.StateStore.Views.{FullState, RoomUpdatePayload}

-- `sseEvent`: the names of the events, each with the data that comes with it.
pub data SseEvent : Type 0 where
  full_state : FullState → SseEvent
  room_update : RoomUpdatePayload → SseEvent
  audit_event : AuditEvent → SseEvent
  fraud_alert : AlertItem → SseEvent

abbrev pub channel_size : ℕ
channel_size = 16

-- A channel, named by a number, and what waits in it, oldest first.
pub record Channel : Type 0 where
  pub name : ℕ
  pub buffer : List SseEvent

-- The map of the subscribers, and the number of the next channel.
pub record EventBroker : Type 0 where
  pub subscribers : List Channel
  pub next : ℕ

abbrev pub new_event_broker : EventBroker
new_event_broker = record { subscribers = []; next = 0 }

unfoldable pub subscribe : EventBroker → ℕ × EventBroker
subscribe b = (
  b.next,
  record {
    subscribers = (record { name = b.next; buffer = [] }) ∷ b.subscribers;
    next = b.next + 1;
  },
)

without : ℕ → List Channel → List Channel
without name [] = []
without name (ch ∷ channels) =
    let rest = without name channels in if eqb ch.name name then rest else ch ∷ rest

-- The function that `Subscribe` returns.
unfoldable pub unsubscribe : ℕ → EventBroker → EventBroker
unfolding without
unsubscribe name b = record b { subscribers = without name b.subscribers }

-- Whether a channel of the name is among the subscribers.
abbrev pub has_channel : ℕ → List Channel → Bool
has_channel name [] = false
has_channel name (ch ∷ channels) = eqb ch.name name || has_channel name channels

has_channel-without :
    (name : ℕ) (channels : List Channel) → has_channel name (without name channels) ≡ false
unfolding without
has_channel-without name [] = refl
has_channel-without name (ch ∷ channels) = elim (Bool-cases (eqb ch.name name)) [
  | inl here ↦ rw here (has_channel-without name channels)
  | inr there ↦ rw (there, there) (has_channel-without name channels)
]

pub has_channel-unsubscribe :
    (name : ℕ) (b : EventBroker) → has_channel name (unsubscribe name b).subscribers ≡ false
unfolding unsubscribe
has_channel-unsubscribe name b = has_channel-without name b.subscribers

-- `select { case ch <- event: default: }`.
unfoldable pub offer : SseEvent → Channel → Channel
offer event ch =
    if ltb (length ch.buffer) channel_size
    then record ch { buffer = ch.buffer ++ event ∷ [] }
    else ch

unfoldable pub offer_all : SseEvent → List Channel → List Channel
offer_all event [] = []
offer_all event (ch ∷ channels) = offer event ch ∷ offer_all event channels

unfoldable pub publish : SseEvent → EventBroker → EventBroker
publish event b = record b { subscribers = offer_all event b.subscribers }

abbrev pub rest_of : List SseEvent → List SseEvent
rest_of [] = []
rest_of (event ∷ events) = events

abbrev pub first_of : List SseEvent → Option SseEvent
first_of [] = none
first_of (event ∷ events) = some event

unfoldable pub taken : ℕ → List Channel → Option SseEvent × List Channel
taken name [] = (none, [])
taken name (ch ∷ channels) =
    let (event, rest) = taken name channels in
    if eqb ch.name name
    then (first_of ch.buffer, (record ch { buffer = rest_of ch.buffer }) ∷ channels)
    else (event, ch ∷ rest)

-- `event := <-ch` where an event waits.
unfoldable pub receive : ℕ → EventBroker → Option SseEvent × EventBroker
receive name b =
    let (event, channels) = taken name b.subscribers in (event, record b { subscribers = channels })
