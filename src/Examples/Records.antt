-- ===== src/Examples/Records.antt =====
-- Tests of the store, and instances of its theorems.
use ccs2_plus.Prelude.{ℕ, ◌+◌, ◌*◌, ◌^◌, refl, Bool, true, false, Option, none, some, List, [], ◌∷◌}
use ccs2_plus.Prelude.Int.{pos}
use ccs2_plus.Database.{
  Db, RoomRow, Conn, ok, err, rfc3339, Result, done, with_tx, statement, Outcome,
}
use ccs2_plus.Database.Atomic.{Settled, with_tx-Settled, Runs-statement}
use ccs2_plus.Database.Record.{
  CheckInParams, CheckOutParams, ExtendParams, PaymentParams, CommandParams, record_check_in,
  record_check_out, record_extend, record_payment, record_command,
}
use ccs2_plus.Database.Tables.{
  check_in_tables, check_out_tables, extend_tables, payment_tables, command_tables,
}
use ccs2_plus.Database.Effects.{
  record_check_in-Settled, record_check_out-Settled, record_extend-Settled, record_payment-Settled,
  record_command-Settled,
}
use ccs2_plus.Examples.{whole_amounts, by_second}

abbrev pub row_1205 : RoomRow ℕ
row_1205 = record {
  room_id = "1205";
  floor = pos 1;
  controller_id = "ctrl-12";
  rs485_address = 1;
  card_index = 0;
  port_index = pos 4;
  status = "vacant";
  stay_mode = "";
  case_code = "";
  controller_online = pos 1;
  remaining_minutes = pos 0;
  last_payment_amount = 0;
  last_payment_method = "";
  last_payment_ref = "";
  updated_at = rfc3339 0;
}

abbrev pub seeded : Db ℕ
seeded = record { rooms = row_1205 ∷ []; stays = []; payments = []; audit_events = [] }

-- A connection on which the calls with `true` fail.
abbrev pub opened_on : Db ℕ → List Bool → Conn ℕ
opened_on db faults = record { committed = db; pending = none; faults = faults }

abbrev pub noon : ℕ
noon = 12 * 3600 * 10 ^ 9

abbrev pub stay_night : CheckInParams ℕ
stay_night = record {
  request_id = "r1";
  room_id = "1205";
  stay_mode = "overnight";
  case_code = "overnight";
  remaining_minutes = pos 720;
  payment_amount = 500;
  payment_ref = "cash-1";
  actor = "cashier";
  timestamp = noon;
}

abbrev pub leave : CheckOutParams
leave = record {
  request_id = "r2";
  room_id = "1205";
  actor = "cashier";
  timestamp = noon + 90 * 60 * 10 ^ 9;
}

-- Whether an action has succeeded, and the tables after it.
abbrev after : Result Unit × Conn ℕ → Option (Db ℕ)
after (ok r, c) = some c.committed
after (err e, c) = none

abbrev checked_in : Option (Db ℕ)
checked_in = after (record_check_in ⦃f = whole_amounts⦄ stay_night (opened_on seeded []))

record_check_in-Settled_example :
    Settled
      (check_in_tables ⦃f = whole_amounts⦄ stay_night seeded)
      (opened_on seeded (false ∷ false ∷ true ∷ []))
      (record_check_in ⦃f = whole_amounts⦄ stay_night
        (opened_on seeded (false ∷ false ∷ true ∷ [])))
record_check_in-Settled_example =
    record_check_in-Settled ⦃f = whole_amounts⦄ stay_night
      (opened_on seeded (false ∷ false ∷ true ∷ [])) refl

record_check_out-Settled_example :
    Settled
      (check_out_tables ⦃f = whole_amounts⦄ ⦃o = by_second⦄ leave seeded)
      (opened_on seeded [])
      (record_check_out ⦃f = whole_amounts⦄ ⦃o = by_second⦄ leave (opened_on seeded []))
record_check_out-Settled_example =
    record_check_out-Settled ⦃f = whole_amounts⦄ ⦃o = by_second⦄ leave (opened_on seeded []) refl

abbrev longer : ExtendParams ℕ
longer = record {
  request_id = "r3";
  room_id = "1205";
  stay_mode = "overnight";
  case_code = "overnight";
  remaining_minutes = pos 780;
  extend_minutes = pos 60;
  payment_amount = 100;
  payment_ref = "cash-2";
  actor = "cashier";
  timestamp = noon;
}

record_extend-Settled_example :
    Settled
      (extend_tables ⦃f = whole_amounts⦄ ⦃o = by_second⦄ longer seeded)
      (opened_on seeded [])
      (record_extend ⦃f = whole_amounts⦄ ⦃o = by_second⦄ longer (opened_on seeded []))
record_extend-Settled_example =
    record_extend-Settled ⦃f = whole_amounts⦄ ⦃o = by_second⦄ longer (opened_on seeded []) refl

abbrev cash : PaymentParams ℕ
cash = record {
  request_id = "r4";
  room_id = "1205";
  amount = 200;
  method = "cash";
  reference = "cash-3";
  actor = "cashier";
  timestamp = noon;
}

record_payment-Settled_example :
    Settled
      (payment_tables ⦃f = whole_amounts⦄ ⦃o = by_second⦄ cash seeded)
      (opened_on seeded [])
      (record_payment ⦃f = whole_amounts⦄ ⦃o = by_second⦄ cash (opened_on seeded []))
record_payment-Settled_example =
    record_payment-Settled ⦃f = whole_amounts⦄ ⦃o = by_second⦄ cash (opened_on seeded []) refl

abbrev cleaning : CommandParams
cleaning = record {
  request_id = "r5";
  room_id = "1205";
  action = "start_cleaning";
  actor = "maid";
  detail = "";
  timestamp = noon;
}

record_command-Settled_example :
    Settled
      (command_tables ⦃f = whole_amounts⦄ ⦃o = by_second⦄ cleaning seeded)
      (opened_on seeded [])
      (record_command ⦃f = whole_amounts⦄ ⦃o = by_second⦄ cleaning (opened_on seeded []))
record_command-Settled_example =
    record_command-Settled ⦃f = whole_amounts⦄ ⦃o = by_second⦄ cleaning (opened_on seeded []) refl

-- A transaction of one statement, which empties the payments.
abbrev emptied : Db ℕ → Outcome ℕ Unit
emptied db = done tt (record db { payments = [] })

with_tx-Settled_example :
    Settled
      (emptied seeded)
      (opened_on seeded [])
      (with_tx (statement "empty" emptied) (opened_on seeded []))
with_tx-Settled_example =
    with_tx-Settled (statement "empty" emptied) emptied (opened_on seeded [])
      (Runs-statement "empty" emptied) refl
