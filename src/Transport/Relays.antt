-- ===== src/Transport/Relays.antt =====
-- The relays that the cache holds follow the intents: `ApplyIntent` switches one port of one card.
use ccs2_plus.Prelude.{
  ℕ, ◌≤◌, ◌<◌, ◌≡◌, refl, inl, inr, ◌&&◌, ◌==◌, Bool, true, false, Option, none, some, arith, ltb,
  eqb, if◌then◌else◌, Option-cases,
}
use ccs2_plus.Prelude.Int.{ℤ, pos, negsuc}
use ccs2_plus.Legacy.{
  SlavePayload, SemanticState, semantic_to_legacy, set_port_status, empty_payload, status_overstay,
  semantic_vacant,
}
use ccs2_plus.Legacy.Relays.{
  IsPayload, relay, relay_of, set_port_status-relays, set_port_status-accepts,
}
use ccs2_plus.RoomMap.{RoomMapping, get_by_room_id}
use ccs2_plus.Transport.{
  CommandIntent, Service, Cache, cached, store_payload, finish, with_codes, with_mapping,
  apply_intent,
}

-- Every cached payload is a `uint16`.
abbrev pub IsCache : Cache → Type 0
IsCache cache = (a : ℕ) → IsPayload (cached cache a)

-- The relay of a port of a card.
abbrev pub relay_at : Cache → ℕ → ℕ → ℕ
relay_at cache address port = relay (cached cache address) port

-- The relay that a state asks for: off for a vacant room, on for every other.
abbrev pub wanted : SemanticState → ℕ
wanted state = if state == semantic_vacant then 0 else 1

semantic_to_legacy-le :
    (state : SemanticState) (status mode : ℕ)
    → semantic_to_legacy state ≡ some (status, mode)
    → status ≤ status_overstay
unfolding semantic_to_legacy
semantic_to_legacy-le state status mode h = ground arith

cached-or :
    (b : Bool) (p q : Option SlavePayload)
    → elim (if b then p else q) [ none ↦ empty_payload | some r ↦ r ] ≡ (
        if b
        then elim p [ none ↦ empty_payload | some r ↦ r ]
        else elim q [ none ↦ empty_payload | some r ↦ r ])
cached-or true p q = refl
cached-or false p q = refl

cached-store_payload :
    (cache : Cache) (address : ℕ) (p : SlavePayload) (a : ℕ)
    → cached (store_payload cache address p) a ≡ (if eqb address a then p else cached cache a)
unfolding cached
cached-store_payload cache address p a = cached-or (eqb address a) (some p) (cache a)

pub cached-store_self :
    (cache : Cache) (address : ℕ) (p : SlavePayload)
    → cached (store_payload cache address p) address ≡ p
cached-store_self cache address p = rw cached-store_payload (ground arith)

relay_of-wanted :
    (state : SemanticState) (status mode : ℕ)
    → semantic_to_legacy state ≡ some (status, mode)
    → relay_of status ≡ wanted state
unfolding semantic_to_legacy
relay_of-wanted state status mode h = ground arith

cache-finish :
    (s : Service) (intent : CommandIntent) (t : ℕ) (m : RoomMapping) (mode : ℕ) (p : SlavePayload)
    → (finish s intent t m mode p).1.cache ≡ store_payload s.cache m.address p
unfolding finish
cache-finish s intent t m mode p = ground arith

-- The relay of one port of one card under an intent for a known room on a port of the card.
relay_at-with_codes :
    (s : Service) (intent : CommandIntent) (t : ℕ) (m : RoomMapping) (port status mode a j : ℕ)
    → IsCache s.cache
    → m.port_index ≡ pos port
    → port < 16
    → semantic_to_legacy intent.target_state ≡ some (status, mode)
    → (relay_at (with_codes s intent t m (some (status, mode))).1.cache a j ≡ (
        if eqb m.address a && eqb port j then wanted intent.target_state else relay_at s.cache a j))
      × IsPayload (cached (with_codes s intent t m (some (status, mode))).1.cache a)
unfolding with_codes
relay_at-with_codes s intent t m port status mode a j valid at_port on_card known =
    let low : status ≤ status_overstay =
      semantic_to_legacy-le intent.target_state status mode known in
    let (q, accepted) =
      (set_port_status-accepts (cached s.cache m.address) (pos port) status).1
        (port, refl, on_card, low) in
    let (_, _, payload, switched) =
      set_port_status-relays (cached s.cache m.address) port status q j (valid m.address)
        accepted in
    rw (at_port, accepted, cache-finish, cached-store_payload)
      (ground (arith, switched, valid a, relay_of-wanted intent.target_state status mode known))

abbrev pub is_known : SemanticState → Bool
is_known state = elim (semantic_to_legacy state) [ none ↦ false | some _ ↦ true ]

-- The port of a mapping, where it is one of the card's sixteen.
abbrev pub card_port : ℤ → Option ℕ
card_port (pos n) = if ltb n 16 then some n else none
card_port (negsuc n) = none

pub card_port-lt : (p : ℤ) (n : ℕ) → card_port p ≡ some n → (p ≡ pos n) × (n < 16)
card_port-lt (pos m) n h = ground arith
card_port-lt (negsuc m) n h = cc

with_codes_off_card :
    (s : Service) (intent : CommandIntent) (t : ℕ) (m : RoomMapping) (codes : Option (ℕ × ℕ))
    → card_port m.port_index ≡ none
    → (with_codes s intent t m codes).1 ≡ s
unfolding with_codes set_port_status
with_codes_off_card s intent t m codes h = ground arith

-- The relays after an intent: where its room is mapped to a port of a card and its state is one of
-- the four, the relay of that port takes the value that the state asks for; every other relay stays.
abbrev pub effect : Option RoomMapping → SemanticState → Cache → ℕ → ℕ → ℕ
effect none state cache a j = relay_at cache a j
effect (some m) state cache a j = elim (card_port m.port_index) [
  | none ↦ relay_at cache a j
  | some port ↦
      if is_known state && (eqb m.address a && eqb port j) then wanted state else relay_at cache a j
]

effect-with_codes :
    (s : Service) (intent : CommandIntent) (t : ℕ) (m : RoomMapping) (a j : ℕ)
    (codes : Option (ℕ × ℕ))
    → IsCache s.cache
    → semantic_to_legacy intent.target_state ≡ codes
    → (relay_at (with_codes s intent t m codes).1.cache a j
        ≡ effect (some m) intent.target_state s.cache a j)
      × IsPayload (cached (with_codes s intent t m codes).1.cache a)
effect-with_codes s intent t m a j none valid e = unfold with_codes in ground (arith, valid a)
effect-with_codes s intent t m a j (some (status, mode)) valid e =
    elim (Option-cases (card_port m.port_index)) [
      | inl off ↦
          rw (with_codes_off_card s intent t m (some (status, mode)) off) (ground (arith, valid a))
      | inr (port, on) ↦
          let (at_port, on_card) = card_port-lt m.port_index port on in
          ground
            (arith, relay_at-with_codes s intent t m port status mode a j valid at_port on_card e)
    ]

effect-with_mapping :
    (s : Service) (intent : CommandIntent) (t a j : ℕ) (found : Option RoomMapping)
    → IsCache s.cache
    → (relay_at (with_mapping s intent t found).1.cache a j
        ≡ effect found intent.target_state s.cache a j)
      × IsPayload (cached (with_mapping s intent t found).1.cache a)
unfolding with_mapping
effect-with_mapping s intent t a j none valid = (refl, valid a)
effect-with_mapping s intent t a j (some m) valid =
    effect-with_codes s intent t m a j (semantic_to_legacy intent.target_state) valid refl

-- Where the cached payloads are `uint16`, whatever becomes of the frames, every relay of every card in the cache is after an intent what
-- `effect` says: only the relay of the intent's own port can change. The payloads stay `uint16`.
pub relay_at-apply_intent :
    (s : Service) (intent : CommandIntent) (t a j : ℕ)
    → IsCache s.cache
    → (relay_at (apply_intent s intent t).1.cache a j
        ≡ effect (get_by_room_id s.repo intent.room_id) intent.target_state s.cache a j)
      × IsPayload (cached (apply_intent s intent t).1.cache a)
unfolding apply_intent
relay_at-apply_intent s intent t a j valid =
    effect-with_mapping s intent t a j (get_by_room_id s.repo intent.room_id) valid
