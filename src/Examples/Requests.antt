-- ===== src/Examples/Requests.antt =====
-- Tests of the handlers, and instances of their theorems.
use ccs2_plus.Prelude.{ℕ, ◌≡◌, refl, some, []}
use ccs2_plus.Prelude.Int.{pos}
use ccs2_plus.Prelude.Table.{lookup, insert}
use ccs2_plus.StateStore.{get, new_state_store}
use ccs2_plus.Server.{Server, Clock}
use ccs2_plus.Server.Unchanged.{Request, check_in, serve, Served, serve-Served}
use ccs2_plus.Server.Mirror.{IsMirrored}
use ccs2_plus.Server.Mirrored.{serve-IsMirrored}
use ccs2_plus.StateStore.{StateStore}
use ccs2_plus.Database.{Result, ok, err, Conn}
use ccs2_plus.Database.Reads.{
  place_row, sort_rows, scan_rooms, list_rooms, scan_events, sort_events, list_recent_audit,
  bootstrap,
}
use ccs2_plus.Server.Restore.{new_state_store_from_store, restored}
use ccs2_plus.Events.{new_event_broker}
use ccs2_plus.Examples.{two_rooms, bus, bad_bus, whole_amounts, by_second}
use ccs2_plus.Examples.Records.{seeded, opened_on}

abbrev pub server : Server ℕ
server = record {
  state = new_state_store ⦃f = whole_amounts⦄ two_rooms (λ i. i);
  transport = bus;
  store = some (opened_on seeded []);
  events = new_event_broker;
}

-- The same with a bus that refuses its first frame.
abbrev failing_server : Server ℕ
failing_server = record server { transport = bad_bus }

abbrev pub clock : Clock
clock = record { asked = 1; sent = 2; now = 3; updated = 4 }

abbrev arrival : Request ℕ
arrival = check_in "1205" (
    some record {
      request_id = "r1";
      action = "check_in";
      stay_mode = "overnight";
      case_code = "";
      stay_hours = pos 12;
      payment_amount = 500;
      payment_ref = "cash-1";
    })

serve-Served_example :
    Served failing_server (serve ⦃f = whole_amounts⦄ ⦃o = by_second⦄ clock arrival failing_server)
serve-Served_example =
    serve-Served ⦃f = whole_amounts⦄ ⦃o = by_second⦄ clock arrival failing_server refl

serve-IsMirrored_example :
    IsMirrored (serve ⦃f = whole_amounts⦄ ⦃o = by_second⦄ clock arrival server).1
unfolding get new_state_store lookup insert
serve-IsMirrored_example =
    serve-IsMirrored ⦃f = whole_amounts⦄ ⦃o = by_second⦄ clock arrival server (opened_on seeded [])
      refl refl tt ((refl, refl, refl, refl), tt)

abbrev pub state_of : Result (StateStore ℕ) × Conn ℕ → StateStore ℕ
state_of (ok state, c) = state
state_of (err e, c) = server.state

-- The state after a start on the seeded database.
abbrev started : StateStore ℕ
started = state_of (
    new_state_store_from_store ⦃f = whole_amounts⦄ ⦃o = by_second⦄ two_rooms (λ i. i)
      (opened_on seeded []))

starts :
    new_state_store_from_store ⦃f = whole_amounts⦄ ⦃o = by_second⦄ two_rooms
      (λ i. i)
      (opened_on seeded [])
    ≡ (ok started, opened_on seeded [])
unfolding new_state_store_from_store restored bootstrap list_rooms scan_rooms sort_rows place_row
    list_recent_audit scan_events sort_events
starts = refl
