-- ===== src/Events/Delivery.antt =====
-- What the subscribers of the broker get.
use ccs2_plus.Prelude.{
  ℕ, ◌≤◌, ◌≡◌, refl, sym, ap, ◌∙◌, List, [], ◌∷◌, ◌++◌, ltb, length, length-append, take, take_all,
  take_within, append-cons, append-nil, arith, All, inl, inr, Bool-cases,
}
use ccs2_plus.Events.{SseEvent, channel_size, Channel, EventBroker, offer, offer_all, publish}

-- Every channel holds at most as many events as there is room for.
abbrev pub IsBounded : EventBroker → Type 0
IsBounded b = All (λ (ch : Channel). length ch.buffer ≤ channel_size) b.subscribers

-- What waits in the channels, in the order of the subscribers.
abbrev pub waiting : List Channel → List (ℕ × List SseEvent)
waiting [] = []
waiting (ch ∷ channels) = (ch.name, ch.buffer) ∷ waiting channels

-- The first events that find room.
abbrev pub fitting : List SseEvent → List Channel → List (ℕ × List SseEvent)
fitting events [] = []
fitting events (ch ∷ channels) =
    (ch.name, take channel_size (ch.buffer ++ events)) ∷ fitting events channels

unfoldable pub publish_all : List SseEvent → EventBroker → EventBroker
publish_all [] b = b
publish_all (event ∷ events) b = publish_all events (publish event b)

offer-length :
    (event : SseEvent) (ch : Channel)
    → length ch.buffer ≤ channel_size
    → length (offer event ch).buffer ≤ channel_size
unfolding offer
offer-length event ch h = ground (arith, length-append ch.buffer (event ∷ []))

offer_all-length :
    (event : SseEvent) (channels : List Channel)
    → All (λ (ch : Channel). length ch.buffer ≤ channel_size) channels
    → All (λ (ch : Channel). length ch.buffer ≤ channel_size) (offer_all event channels)
unfolding offer_all
offer_all-length event [] h = tt
offer_all-length event (ch ∷ channels) (h, hs) =
    (offer-length event ch h, offer_all-length event channels hs)

-- An event that finds no room changes nothing of the first events that do.
take-offer :
    (event : SseEvent) (events : List SseEvent) (ch : Channel)
    → length ch.buffer ≤ channel_size
    → take channel_size ((offer event ch).buffer ++ events)
      ≡ take channel_size (ch.buffer ++ event ∷ events)
unfolding offer
take-offer event events ch h = elim (Bool-cases (ltb (length ch.buffer) channel_size)) [
  | inl e ↦ rw e (ap (take channel_size) (append-cons ch.buffer event events))
  | inr e ↦ rw e (
      take_within channel_size ch.buffer events (ground arith)
      ∙ sym (take_within channel_size ch.buffer (event ∷ events) (ground arith)))
]

offer-name : (event : SseEvent) (ch : Channel) → (offer event ch).name ≡ ch.name
unfolding offer
offer-name event ch = ground arith

waiting-fitting :
    (channels : List Channel)
    → All (λ (ch : Channel). length ch.buffer ≤ channel_size) channels
    → waiting channels ≡ fitting [] channels
waiting-fitting [] h = refl
waiting-fitting (ch ∷ channels) (h, hs) =
    rw (waiting-fitting channels hs, append-nil, take_all channel_size ch.buffer h) refl

fitting-offer_all :
    (event : SseEvent) (events : List SseEvent) (channels : List Channel)
    → All (λ (ch : Channel). length ch.buffer ≤ channel_size) channels
    → fitting events (offer_all event channels) ≡ fitting (event ∷ events) channels
unfolding offer_all
fitting-offer_all event events [] h = refl
fitting-offer_all event events (ch ∷ channels) (h, hs) =
    rw
      (
        offer-name event ch,
        take-offer event events ch h,
        fitting-offer_all event events channels hs,
      )
      refl

-- Where no channel holds more than 16 events, after any list of published events, with no receipt
-- between them, each channel holds what it held and then the events in their order, cut at 16 in all.
pub publish_all-fitting :
    (events : List SseEvent) (b : EventBroker)
    → IsBounded b
    → waiting (publish_all events b).subscribers ≡ fitting events b.subscribers
unfolding publish_all publish
publish_all-fitting [] b h = waiting-fitting b.subscribers h
publish_all-fitting (event ∷ events) b h =
    publish_all-fitting events (publish event b) (offer_all-length event b.subscribers h)
    ∙ fitting-offer_all event events b.subscribers h
