-- ===== src/Examples/Bus.antt =====
-- Tests of the codec and the bus, and instances of their theorems.
use ccs2_plus.Prelude.{ℕ, ◌<◌, ◌≤◌, ◌≡◌, refl, eq_iff, some, [], ◌∷◌, arith, ◌↔◌}
use ccs2_plus.Prelude.Bits.{bit}
use ccs2_plus.Prelude.Int.{pos}
use ccs2_plus.Prelude.Table.{lookup, insert}
use ccs2_plus.Legacy
use ccs2_plus.Legacy.{
  SlavePayload, set_port_status, build_slave_frame, build_display_frame, semantic_occupied,
  semantic_vacant, port_ref, empty_payload, semantic_to_legacy, low_byte, high_byte, checksum,
}
use ccs2_plus.Legacy.Relays.{IsPayload, relay, set_port_status-relays, set_port_status-accepts}
use ccs2_plus.Legacy.Frames.{read_slave_frame, read-build_slave_frame}
use ccs2_plus.RoomMap.{get_by_room_id, new_memory_repository}
use ccs2_plus.RoomMap.Find.{get_by_room_id-new}
use ccs2_plus.Transport.{
  CommandResult, memory_writer, err, ok, room_mapping_not_found, write_failed, apply_intent,
  new_service, cached, write_frame,
}
use ccs2_plus.Transport.Relays.{IsCache, relay_at, relay_at-apply_intent}
use ccs2_plus.Transport.Follow.{run, IsAlone, run_follows}
use ccs2_plus.Transport.Outcomes.{
  sent, accepted_sends, accepted_frame_reads, failed_write_rides_along,
}
use ccs2_plus.Examples.{room_1205, room_1206, two_rooms, bus, bad_bus, to_state}

abbrev port_4_on : SlavePayload
port_4_on = record { bitmask = 16 }

occupied_port_4 : set_port_status (record { bitmask = 0 }) (pos 4) 2 ≡ Legacy.ok port_4_on
unfolding set_port_status
occupied_port_4 = refl

slave_frame_bytes : build_slave_frame 1 port_4_on ≡ 0x3a ∷ 1 ∷ 16 ∷ 0 ∷ 0xb5 ∷ []
unfolding build_slave_frame low_byte high_byte checksum
slave_frame_bytes = refl

port_16_refused : set_port_status port_4_on (pos 16) 2 ≡ Legacy.err (Legacy.invalid_port (pos 16))
unfolding set_port_status
port_16_refused = refl

set_port_status-relays_example :
    (4 < 16)
    × (2 ≤ 4)
    × IsPayload port_4_on
    × (relay port_4_on 7 ≡ relay (record { bitmask = 0 }) 7)
set_port_status-relays_example =
    set_port_status-relays (record { bitmask = 0 }) 4 2 port_4_on 7 (omega arith) occupied_port_4

set_port_status-accepts_example :
    ((q : SlavePayload) × (set_port_status port_4_on (pos 3) 3 ≡ Legacy.ok q))
    ↔ ((n : ℕ) × (pos 3 ≡ pos n) × (n < 16) × (3 ≤ 4))
set_port_status-accepts_example = set_port_status-accepts port_4_on (pos 3) 3

read-build_slave_frame_example : read_slave_frame (build_slave_frame 1 port_4_on) ≡ some (1, 16)
read-build_slave_frame_example = read-build_slave_frame 1 port_4_on (omega arith)

get_by_room_id-new_example :
    get_by_room_id (new_memory_repository two_rooms) "1206" ≡ some room_1206
get_by_room_id-new_example = get_by_room_id-new two_rooms "1206"

finds_1205 : get_by_room_id bus.repo "1205" ≡ some room_1205
unfolding get_by_room_id new_memory_repository new_service lookup insert
finds_1205 = refl

finds_1206 : get_by_room_id bus.repo "1206" ≡ some room_1206
unfolding get_by_room_id new_memory_repository new_service lookup insert
finds_1206 = refl

bus-IsCache : IsCache bus.cache
unfolding new_service cached empty_payload
bus-IsCache a = omega arith

relay_at-apply_intent_example :
    (relay_at (apply_intent bus (to_state "1205" "occupied") 7).1.cache 1 4 ≡ 1)
    × IsPayload (cached (apply_intent bus (to_state "1205" "occupied") 7).1.cache 1)
unfolding get_by_room_id lookup new_service new_memory_repository insert semantic_to_legacy
relay_at-apply_intent_example =
    relay_at-apply_intent bus (to_state "1205" "occupied") 7 1 4 bus-IsCache

sole_room : IsAlone bus.repo "1205" room_1205
unfolding get_by_room_id new_memory_repository new_service lookup insert
sole_room k m h a p = ground (arith, eq_iff "1205" k, eq_iff "1206" k)

run_follows_example :
    relay_at
      (run bus ((to_state "1205" "occupied", 7) ∷ (to_state "1206" "vacant", 8) ∷ [])).cache
      1
      4
    ≡ 1
unfolding semantic_to_legacy
run_follows_example =
    run_follows "1205" room_1205 4 bus
      ((to_state "1205" "occupied", 7) ∷ (to_state "1206" "vacant", 8) ∷ []) bus-IsCache finds_1205
      refl sole_room

unknown_room :
    (apply_intent bus (to_state "9999" "vacant") 7).0 ≡ err (room_mapping_not_found "9999")
unfolding apply_intent get_by_room_id new_memory_repository new_service lookup insert
unknown_room = refl

abbrev occupied_1205 : CommandResult
occupied_1205 = record {
  request_id = "r1";
  room_id = "1205";
  action = "check_in";
  target_state = "occupied";
  stay_mode = "overnight";
  case_code = "overnight";
  slave_frame = 0x3a ∷ 1 ∷ 16 ∷ 0 ∷ 0xb5 ∷ [];
  display_frame = build_display_frame 0 (pos 4) 3;
  sent_at = 7;
}

occupied_1205_lem : (apply_intent bus (to_state "1205" "occupied") 7).0 ≡ ok occupied_1205
unfolding apply_intent get_by_room_id new_memory_repository new_service lookup insert
    set_port_status build_slave_frame low_byte high_byte checksum semantic_to_legacy cached
    empty_payload write_frame
occupied_1205_lem = refl

accepted_sends_example :
    (sent (apply_intent bus (to_state "1205" "occupied") 7).1
      ≡ occupied_1205.slave_frame ∷ occupied_1205.display_frame ∷ [])
    × (occupied_1205.request_id ≡ "r1")
    × (occupied_1205.room_id ≡ "1205")
    × (occupied_1205.action ≡ "check_in")
    × (occupied_1205.target_state ≡ "occupied")
    × (occupied_1205.stay_mode ≡ "overnight")
    × (occupied_1205.case_code ≡ "overnight")
    × (occupied_1205.sent_at ≡ 7)
unfolding new_service
accepted_sends_example =
    accepted_sends bus (to_state "1205" "occupied") 7 memory_writer occupied_1205 refl
      occupied_1205_lem

accepted_frame_reads_example :
    read_slave_frame occupied_1205.slave_frame
    ≡ some (1, (cached (apply_intent bus (to_state "1205" "occupied") 7).1.cache 1).bitmask)
accepted_frame_reads_example =
    accepted_frame_reads bus (to_state "1205" "occupied") 7 room_1205 occupied_1205 bus-IsCache
      finds_1205 occupied_1205_lem

first_refused : (apply_intent bad_bus (to_state "1205" "occupied") 7).0 ≡ err write_failed
unfolding apply_intent get_by_room_id new_memory_repository new_service lookup insert
    set_port_status build_slave_frame low_byte high_byte checksum semantic_to_legacy cached
    empty_payload write_frame
first_refused = refl

abbrev vacant_1206 : CommandResult
vacant_1206 = record {
  request_id = "r1";
  room_id = "1206";
  action = "check_in";
  target_state = "vacant";
  stay_mode = "overnight";
  case_code = "overnight";
  slave_frame = 0x3a ∷ 1 ∷ 16 ∷ 0 ∷ 0xb5 ∷ [];
  display_frame = build_display_frame 0 (pos 5) 0;
  sent_at = 8;
}

second_accepted :
    (apply_intent
      (apply_intent bad_bus (to_state "1205" "occupied") 7).1
      (to_state "1206" "vacant")
      8).0
    ≡ ok vacant_1206
unfolding apply_intent get_by_room_id new_memory_repository new_service lookup insert
    set_port_status build_slave_frame low_byte high_byte checksum semantic_to_legacy cached
    empty_payload write_frame
second_accepted = refl

failed_write_rides_along_example :
    (relays : ℕ) × (read_slave_frame vacant_1206.slave_frame ≡ some (1, relays))
    × (bit relays 4 ≡ 1)
unfolding new_service semantic_to_legacy
failed_write_rides_along_example =
    failed_write_rides_along bad_bus (to_state "1205" "occupied") (to_state "1206" "vacant") 7 8
      room_1205 room_1206 4 5 vacant_1206 bus-IsCache finds_1205 refl refl first_refused finds_1206
      refl refl (λ h. cc h) second_accepted
