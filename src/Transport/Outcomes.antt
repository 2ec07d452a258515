-- ===== src/Transport/Outcomes.antt =====
-- The results of `ApplyIntent` and what has gone out on the bus.
use ccs2_plus.Prelude.{ℕ, ◌≡◌, ap, ◌∙◌, ◌≢◌, true, Option, none, some, List, [], ◌∷◌, ◌++◌, arith}
use ccs2_plus.Legacy
use ccs2_plus.Legacy.{
  SlavePayload, SemanticState, PayloadResult, set_port_status, semantic_to_legacy,
  build_slave_frame, build_display_frame,
}
use ccs2_plus.Legacy.Frames.{read_slave_frame, read-build_slave_frame}
use ccs2_plus.RoomMap.{RoomMapping, get_by_room_id}
use ccs2_plus.Transport.{
  CommandIntent, CommandResult, Service, Writer, Cache, IntentResult, IntentError, write_failed,
  err, ok, cached, finish, with_payload, with_codes, with_mapping, apply_intent, write_frame,
}
use ccs2_plus.Transport.Relays.{
  IsCache, relay_at, effect, relay_at-apply_intent, cached-store_self, card_port, is_known, wanted,
}
use ccs2_plus.Prelude.Bits.{bit}
use ccs2_plus.Transport.Follow.{repo-apply_intent}

-- An intent that is refused before the bus (no mapping, no such state, a port outside the card) leaves
-- the cache and the writer as they were, and sends nothing.
pub refused_unchanged :
    (s : Service) (intent : CommandIntent) (t : ℕ) (e : IntentError)
    → (apply_intent s intent t).0 ≡ err e
    → e ≢ write_failed
    → (apply_intent s intent t).1 ≡ s
unfolding apply_intent
refused_unchanged s intent t e h ne = ground arith

-- The frames on the bus, oldest first.
abbrev pub sent : Service → List (List ℕ)
sent s = elim s.writer [ none ↦ [] | some w ↦ w.frames ]

-- An accepted intent on a service with a writer has sent its two frames, the slave frame first, and nothing else; its result
-- has the request, the room, the action, the state, the stay mode and the case of the intent, and the time.
pub accepted_sends :
    (s : Service) (intent : CommandIntent) (t : ℕ) (w : Writer) (r : CommandResult)
    → s.writer ≡ some w
    → (apply_intent s intent t).0 ≡ ok r
    → (sent (apply_intent s intent t).1 ≡ (w.frames ++ r.slave_frame ∷ []) ++ r.display_frame ∷ [])
      × (r.request_id ≡ intent.request_id)
      × (r.room_id ≡ intent.room_id)
      × (r.action ≡ intent.action)
      × (r.target_state ≡ intent.target_state)
      × (r.stay_mode ≡ intent.stay_mode)
      × (r.case_code ≡ intent.case_code)
      × (r.sent_at ≡ t)
unfolding apply_intent write_frame
accepted_sends s intent t w r h e = ground arith

-- In a result that is a success, the slave frame is built from what the cache has after the call.
abbrev Framed : RoomMapping → IntentResult × Service → Type 0
Framed m (ok r, s) = r.slave_frame ≡ build_slave_frame m.address (cached s.cache m.address)
Framed m (err e, s) = Unit

finish-Framed :
    (s : Service) (intent : CommandIntent) (t : ℕ) (m : RoomMapping) (mode : ℕ) (p : SlavePayload)
    → Framed m (finish s intent t m mode p)
unfolding finish
finish-Framed s intent t m mode p = ground (arith, cached-store_self s.cache m.address p)

with_payload-Framed :
    (s : Service) (intent : CommandIntent) (t : ℕ) (m : RoomMapping) (mode : ℕ) (o : PayloadResult)
    → Framed m (with_payload s intent t m mode o)
unfolding with_payload
with_payload-Framed s intent t m mode (Legacy.err e) = tt
with_payload-Framed s intent t m mode (Legacy.ok p) = finish-Framed s intent t m mode p

with_codes-Framed :
    (s : Service) (intent : CommandIntent) (t : ℕ) (m : RoomMapping) (codes : Option (ℕ × ℕ))
    → Framed m (with_codes s intent t m codes)
unfolding with_codes
with_codes-Framed s intent t m none = tt
with_codes-Framed s intent t m (some (status, mode)) =
    with_payload-Framed s intent t m mode
      (set_port_status (cached s.cache m.address) m.port_index status)

apply_intent-Framed :
    (s : Service) (intent : CommandIntent) (t : ℕ) (m : RoomMapping)
    → get_by_room_id s.repo intent.room_id ≡ some m
    → Framed m (apply_intent s intent t)
unfolding apply_intent with_mapping
apply_intent-Framed s intent t m found =
    rw (found, apply_intent, with_mapping)
      (with_codes-Framed s intent t m (semantic_to_legacy intent.target_state))

frame_of_Framed :
    (m : RoomMapping) (out : IntentResult × Service) (r : CommandResult)
    → Framed m out
    → out.0 ≡ ok r
    → r.slave_frame ≡ build_slave_frame m.address (cached out.1.cache m.address)
frame_of_Framed m (ok r', s) r h e = cc
frame_of_Framed m (err x, s) r h e = cc

-- Where the cached payloads are `uint16`, the slave frame of an accepted intent passes the checksum test of the card, and the card reads off
-- it its own address and all the relays that the cache has for it after the call.
pub accepted_frame_reads :
    (s : Service) (intent : CommandIntent) (t : ℕ) (m : RoomMapping) (r : CommandResult)
    → IsCache s.cache
    → get_by_room_id s.repo intent.room_id ≡ some m
    → (apply_intent s intent t).0 ≡ ok r
    → read_slave_frame r.slave_frame
      ≡ some (m.address, (cached (apply_intent s intent t).1.cache m.address).bitmask)
accepted_frame_reads s intent t m r valid found e =
    let after : SlavePayload = cached (apply_intent s intent t).1.cache m.address in
    let frame : r.slave_frame ≡ build_slave_frame m.address after =
      frame_of_Framed m (apply_intent s intent t) r (apply_intent-Framed s intent t m found) e in
    rw frame (
      read-build_slave_frame m.address after (relay_at-apply_intent s intent t m.address 0 valid).1)

effect_other :
    (m : RoomMapping) (state : SemanticState) (cache : Cache) (a port other : ℕ)
    → card_port m.port_index ≡ some other
    → other ≢ port
    → effect (some m) state cache a port ≡ relay_at cache a port
effect_other m state cache a port other on ne = ground arith

effect_self :
    (m : RoomMapping) (state : SemanticState) (cache : Cache) (port : ℕ)
    → card_port m.port_index ≡ some port
    → is_known state ≡ true
    → effect (some m) state cache m.address port ≡ wanted state
effect_self m state cache port on known = ground arith

-- From `uint16` payloads, a command with a known state, for a room on a port of its card, whose frame
-- fails is carried out by the next command for the same card: the cache has
-- kept its relay, so the slave frame of a later accepted intent for another port of that card brings it.
pub failed_write_rides_along :
    (s : Service) (first second : CommandIntent) (t u : ℕ) (m n : RoomMapping) (port other : ℕ)
    (r : CommandResult)
    → IsCache s.cache
    → get_by_room_id s.repo first.room_id ≡ some m
    → card_port m.port_index ≡ some port
    → is_known first.target_state ≡ true
    → (apply_intent s first t).0 ≡ err write_failed
    → get_by_room_id s.repo second.room_id ≡ some n
    → n.address ≡ m.address
    → card_port n.port_index ≡ some other
    → other ≢ port
    → (apply_intent (apply_intent s first t).1 second u).0 ≡ ok r
    → (relays : ℕ) × (read_slave_frame r.slave_frame ≡ some (m.address, relays))
      × (bit relays port ≡ wanted first.target_state)
failed_write_rides_along s first second t u m n port other r valid found on known failed found' same
      on' ne accepted =
    let s1 : Service = (apply_intent s first t).1 in
    let valid1 : IsCache s1.cache = λ a. (relay_at-apply_intent s first t a 0 valid).1 in
    let stays = (relay_at-apply_intent s1 second u m.address port valid1).0 in
    let kept = (relay_at-apply_intent s first t m.address port valid).0 in
    let found1 : get_by_room_id s1.repo second.room_id ≡ some n = rw repo-apply_intent found' in
    let after : Cache = (apply_intent s1 second u).1.cache in
    (
      (cached after n.address).bitmask,
      accepted_frame_reads s1 second u n r valid1 found1 accepted
          ∙ ap (λ (a : ℕ). some (a, (cached after n.address).bitmask)) same,
      ap (λ (a : ℕ). relay_at after a port) same
          ∙ stays
          ∙ ap (λ (o : Option RoomMapping). effect o second.target_state s1.cache m.address port)
              found1
          ∙ effect_other n second.target_state s1.cache m.address port other on' ne
          ∙ kept
          ∙ ap (λ (o : Option RoomMapping). effect o first.target_state s.cache m.address port)
              found
          ∙ effect_self m first.target_state s.cache port on known,
    )
