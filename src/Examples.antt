-- ===== src/Examples.antt =====
-- Data for the tests and for the instances of the theorems: two rooms on one card, whole amounts of
-- money, and texts in the order of their seconds.
mod Bus
mod State
mod Records
mod Requests
mod Channels
mod Stays
mod Exports
mod Sites
mod Starts
mod Streams
use ccs2_plus.Prelude.{
  ℕ, ◌+◌, String, Bool, true, false, Option, none, some, List, [], ◌∷◌, ltb, leb, eqb, not, ◌≡◌,
  refl, arith,
}
use ccs2_plus.Prelude.Int.{ℤ, pos}
use ccs2_plus.Prelude.Float.{Float64}
use ccs2_plus.Legacy.{semantic_occupied}
use ccs2_plus.RoomMap.{RoomMapping, MemoryRepository, new_memory_repository}
use ccs2_plus.Transport.{CommandIntent, Service, Writer, memory_writer, new_service, refused}
use ccs2_plus.Database.{TimeText, rfc3339, other, Collation}

abbrev pub room_1205 : RoomMapping
room_1205 = record {
  room_id = "1205";
  controller_id = "ctrl-12";
  address = 1;
  card_index = 0;
  port_index = pos 4;
}

abbrev pub room_1206 : RoomMapping
room_1206 = record {
  room_id = "1206";
  controller_id = "ctrl-12";
  address = 1;
  card_index = 0;
  port_index = pos 5;
}

abbrev pub two_rooms : List RoomMapping
two_rooms = room_1205 ∷ room_1206 ∷ []

abbrev pub bus : Service
bus = new_service (new_memory_repository two_rooms) (some memory_writer)

-- The first frame on this bus is refused.
abbrev pub bad_bus : Service
bad_bus =
    new_service (new_memory_repository two_rooms)
      (some record { frames = []; outcomes = refused ∷ [] })

abbrev pub to_state : String → String → CommandIntent
to_state room_id state = record {
  request_id = "r1";
  room_id = room_id;
  action = "check_in";
  target_state = state;
  stay_mode = "overnight";
  case_code = "overnight";
}

pub le_nought-not_whole : (a : ℕ) → leb a 0 ≡ not (ltb 0 a)
le_nought-not_whole a = ground arith

pub is_nought_of_pos_whole : (a : ℕ) → ltb 0 a ≡ true → eqb a 0 ≡ false
is_nought_of_pos_whole a h = ground arith

abbrev pub whole_amounts : Float64 ℕ
whole_amounts = record {
  nought = 0;
  add = λ a b. a + b;
  is_pos = λ a. ltb 0 a;
  le_nought = λ a. leb a 0;
  is_nought = λ a. eqb a 0;
  le_nought-not = le_nought-not_whole;
  is_nought-nought = refl;
  is_pos-nought = refl;
  is_nought_of_pos = is_nought_of_pos_whole;
}

abbrev pub second_before : TimeText → TimeText → Bool
second_before (rfc3339 a) (rfc3339 b) = ltb a b
second_before _ _ = false

abbrev pub by_second : Collation
by_second = record { before = second_before; before-rfc3339 = λ a b. refl }
