-- ===== src/Examples/Stays.antt =====
-- Instances of the theorems on lists of calls and on the stays in use.
use ccs2_plus.Prelude.{ℕ, suc, ◌≡◌, refl, true, false, none, List, [], ◌∷◌}
use ccs2_plus.Database.{ok, Conn}
use ccs2_plus.Database.Statements.{has_key, has_room, update_rooms}
use ccs2_plus.Database.Record.{CheckInParams, record_check_in}
use ccs2_plus.Database.Integrity.{IsIntact}
use ccs2_plus.Database.Runs.{Call, check_in, check_out, perform_all, perform_all-IsIntact}
use ccs2_plus.Database.Active.{active_count, check_in_adds_stay}
use ccs2_plus.Examples.{whole_amounts, by_second}
use ccs2_plus.Examples.Records.{seeded, opened_on, stay_night, leave}

-- A check-in whose fourth call of the driver fails, the same again, and a check-out.
abbrev night : List (Call ℕ)
night = check_in stay_night ∷ check_in stay_night ∷ check_out leave ∷ []

abbrev shaky : Conn ℕ
shaky = opened_on seeded (false ∷ false ∷ false ∷ true ∷ [])

perform_all-IsIntact_example :
    ((perform_all ⦃f = whole_amounts⦄ ⦃o = by_second⦄ night shaky).pending ≡ none)
    × IsIntact (perform_all ⦃f = whole_amounts⦄ ⦃o = by_second⦄ night shaky).committed
perform_all-IsIntact_example =
    perform_all-IsIntact ⦃f = whole_amounts⦄ ⦃o = by_second⦄ night shaky refl
      ((tt, tt), (tt, tt), (tt, tt))

-- The second check-in of a room that is occupied.
abbrev other_guest : CheckInParams ℕ
other_guest = record stay_night { request_id = "r9" }

abbrev first_night : Conn ℕ
first_night = (record_check_in ⦃f = whole_amounts⦄ stay_night (opened_on seeded [])).1

abbrev second_night : Conn ℕ
second_night = (record_check_in ⦃f = whole_amounts⦄ other_guest first_night).1

-- Both are taken, and the room then has two stays in use.
nights :
    (first_night.pending ≡ none)
    × (record_check_in ⦃f = whole_amounts⦄ other_guest first_night ≡ (ok tt, second_night))
    × (active_count ⦃o = by_second⦄ "1205" second_night.committed.stays ≡ 2)
unfolding record_check_in ccs2_plus.Database.with_tx ccs2_plus.Database.transaction
    ccs2_plus.Database.◌>>=◌ ccs2_plus.Database.statement ccs2_plus.Database.Record.check_in_body
    ccs2_plus.Database.Record.update_room_state ccs2_plus.Database.Record.paid
    ccs2_plus.Database.Record.insert_payment ccs2_plus.Database.Record.insert_audit
    ccs2_plus.Database.Statements.insert_stay_row ccs2_plus.Database.Statements.insert_payment_row
    ccs2_plus.Database.Statements.insert_audit_row ccs2_plus.Database.Record.check_in_stay has_key
    has_room update_rooms
nights = (refl, refl, refl)

check_in_adds_stay_example :
    active_count ⦃o = by_second⦄ "1205" second_night.committed.stays
    ≡ suc (active_count ⦃o = by_second⦄ "1205" first_night.committed.stays)
check_in_adds_stay_example =
    check_in_adds_stay ⦃o = by_second⦄ ⦃f = whole_amounts⦄ other_guest first_night second_night
      nights.0 nights.1
