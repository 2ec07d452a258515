-- ===== src/Transport.antt =====
-- go-backend/internal/transport/service.go and the writers: a command intent becomes a relay payload
-- in the cache of its card and two frames on the bus.
pub mod Relays
pub mod Follow
pub mod Outcomes
pub mod Serial
use ccs2_plus.Prelude.{
  ℕ, ◌==◌, String, Bool, true, false, Option, none, some, List, [], ◌∷◌, ◌++◌, eqb, if◌then◌else◌,
}
use ccs2_plus.Legacy
use ccs2_plus.Legacy.{
  SlavePayload, PayloadError, PayloadResult, SemanticState, empty_payload, semantic_to_legacy,
  set_port_status, build_slave_frame, build_display_frame,
}
use ccs2_plus.RoomMap.{RoomMapping, MemoryRepository, get_by_room_id}

pub record CommandIntent : Type 0 where
  pub request_id : String
  pub room_id : String
  pub action : String
  pub target_state : SemanticState
  pub stay_mode : String
  pub case_code : String

pub record CommandResult : Type 0 where
  pub request_id : String
  pub room_id : String
  pub action : String
  pub target_state : String
  pub stay_mode : String
  pub case_code : String
  pub slave_frame : List ℕ
  pub display_frame : List ℕ
  pub sent_at : ℕ

-- What becomes of one call of `WriteFrame`: the frame is written; the call fails before the write
-- (the context has ended, the device refuses); or the frame is written and the context ends in
-- the delay after it, so that the call fails all the same.
pub data Outcome : Type 0 where
  written refused interrupted : Outcome

-- A writer with the frames that have gone out and the outcomes that lie ahead; where the list has
-- run out, frames are written. `MemoryWriter` is a writer with no failure ahead.
pub record Writer : Type 0 where
  pub frames : List (List ℕ)
  pub outcomes : List Outcome

abbrev pub memory_writer : Writer
memory_writer = record { frames = []; outcomes = [] }

-- `true` is success.
write_outcome : Outcome → List ℕ → Writer → Bool × Writer
write_outcome written frame w = (true, record w { frames = w.frames ++ frame ∷ [] })
write_outcome refused frame w = (false, w)
write_outcome interrupted frame w = (false, record w { frames = w.frames ++ frame ∷ [] })

next_outcome : List Outcome → Outcome × List Outcome
next_outcome [] = (written, [])
next_outcome (o ∷ outcomes) = (o, outcomes)

-- `WriteFrame`.
unfoldable pub write_frame : List ℕ → Writer → Bool × Writer
unfolding write_outcome next_outcome
write_frame frame w =
    let (o, later) = next_outcome w.outcomes in
    write_outcome o frame (record w { outcomes = later })

-- The cache maps an address to the last payload of its card.
abbrev pub Cache : Type 0
Cache = ℕ → Option SlavePayload

pub record Service : Type 0 where
  pub repo : MemoryRepository
  pub writer : Option Writer
  pub cache : Cache

unfoldable pub new_service : MemoryRepository → Option Writer → Service
new_service repo writer = record { repo = repo; writer = writer; cache = λ a. none }

pub data IntentError : Type 0 where
  room_mapping_not_found unsupported_target : String → IntentError
  payload_error : PayloadError → IntentError
  write_failed : IntentError

pub data IntentResult : Type 0 where
  ok : CommandResult → IntentResult
  err : IntentError → IntentResult

-- `s.cache[address]`, or an empty payload.
unfoldable pub cached : Cache → ℕ → SlavePayload
unfolding empty_payload
cached cache address = elim (cache address) [ none ↦ empty_payload | some p ↦ p ]

-- `s.cache[address] = payload`.
abbrev pub store_payload : Cache → ℕ → SlavePayload → Cache
store_payload cache address payload a = if eqb address a then some payload else cache a

-- The two writes; the second is made only if the first succeeds.
send : List ℕ → List ℕ → Option Writer → Bool × Option Writer
send slave_frame display_frame none = (true, none)
send slave_frame display_frame (some w) =
    let (sent, w') = write_frame slave_frame w in
    let (shown, w'') = write_frame display_frame w' in
    if sent then (shown, some w'') else (false, some w')

finish : Service → CommandIntent → ℕ → RoomMapping → ℕ → SlavePayload → IntentResult × Service
unfolding send
finish s intent sent_at mapping display_mode payload =
    let slave_frame = build_slave_frame mapping.address payload in
    let display_frame = build_display_frame mapping.card_index mapping.port_index display_mode in
    let (sent, writer) = send slave_frame display_frame s.writer in
    let s' : Service = record s {
      writer = writer;
      cache = store_payload s.cache mapping.address payload;
    } in
    if sent
    then (
      ok (record {
        request_id = intent.request_id;
        room_id = intent.room_id;
        action = intent.action;
        target_state = intent.target_state;
        stay_mode = intent.stay_mode;
        case_code = intent.case_code;
        slave_frame = slave_frame;
        display_frame = display_frame;
        sent_at = sent_at;
      }),
      s',
    )
    else (err write_failed, s')

-- After `SetPortStatus`: its error goes back, and the cache is not touched.
with_payload :
    Service → CommandIntent → ℕ → RoomMapping → ℕ → PayloadResult → IntentResult × Service
unfolding finish
with_payload s intent sent_at mapping display_mode (Legacy.err e) = (err (payload_error e), s)
with_payload s intent sent_at mapping display_mode (Legacy.ok payload) =
    finish s intent sent_at mapping display_mode payload

-- After `SemanticToLegacy`.
with_codes : Service → CommandIntent → ℕ → RoomMapping → Option (ℕ × ℕ) → IntentResult × Service
unfolding with_payload
with_codes s intent sent_at mapping none = (err (unsupported_target intent.target_state), s)
with_codes s intent sent_at mapping (some (room_status, display_mode)) =
    with_payload s intent sent_at mapping display_mode
      (set_port_status (cached s.cache mapping.address) mapping.port_index room_status)

-- After the look-up of the mapping.
with_mapping : Service → CommandIntent → ℕ → Option RoomMapping → IntentResult × Service
unfolding with_codes
with_mapping s intent sent_at none = (err (room_mapping_not_found intent.room_id), s)
with_mapping s intent sent_at (some mapping) =
    with_codes s intent sent_at mapping (semantic_to_legacy intent.target_state)

-- `ApplyIntent`; `sent_at` is what `time.Now()` returns at its end.
unfoldable pub apply_intent : Service → CommandIntent → ℕ → IntentResult × Service
unfolding with_mapping
apply_intent s intent sent_at = with_mapping s intent sent_at (get_by_room_id s.repo intent.room_id)
