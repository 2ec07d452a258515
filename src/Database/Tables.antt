-- ===== src/Database/Tables.antt =====
-- What the operations of store.go are to do to the tables: each as one step, with the requests that
-- the keys of the tables refuse.
use ccs2_plus.Prelude.{
  String, append, true, false, not, ◌||◌, ◌&&◌, Option, none, some, List, [], ◌∷◌, ◌++◌, ◌==◌,
  if◌then◌else◌, keep,
}
use ccs2_plus.Prelude.Float.{Float64}
use ccs2_plus.Database.{
  Time, TimeText, parse, is_blank_text, Collation, RoomRow, StayRow, Db, unique_violation,
  foreign_key_violation, no_rows, bad_time, Outcome, done, failed,
}
use ccs2_plus.Database.Statements.{
  room_set, has_room, has_stay, has_payment, has_event, update_rooms, update_stays, room_meta,
  is_active, last_row, cleaned_stays,
}
use ccs2_plus.Database.Record.{
  CheckInParams, CheckOutParams, ExtendParams, PaymentParams, CommandParams, accepted_event,
  unpaid_update, check_in_stay, check_in_update, check_in_payment, check_in_event, checked_out_stay,
  extended_stay, extend_update, extend_payment, extend_event, payment_set, stay_payment,
}

unfoldable pub found_time : String → Option TimeText → Option (String × Time)
found_time stay_id none = some (stay_id, 0)
found_time stay_id (some text) =
    if is_blank_text text
    then some (stay_id, 0)
    else elim (parse text) [ none ↦ none | some t ↦ some (stay_id, t) ]

module _ {A : Type 0} where
  unfoldable pub found : Option (StayRow A) → Option (String × Time)
  unfolding found_time
  found none = some ("", 0)
  found (some row) = found_time row.stay_id row.guest_in_at

module _ {A : Type 0} ⦃o : Collation⦄ where
  -- The stay of the room with the status `in_use` that began last, and its beginning.
  unfoldable pub active_stay : String → List (StayRow A) → Option (String × Time)
  unfolding found
  active_stay room_id stays =
      found (last_row (λ (row : StayRow A). row.guest_in_at) (keep (is_active room_id) stays))

module _ {A : Type 0} ⦃f : Float64 A⦄ where
  open f use {is_pos}

  -- `RecordCheckIn`.
  unfoldable pub check_in_tables : CheckInParams A → Db A → Outcome A Unit
  check_in_tables p db =
      if has_stay p.request_id db.stays
      then failed unique_violation
      else if not (has_room p.room_id db.rooms)
      then failed foreign_key_violation
      else if (is_pos p.payment_amount && has_payment (append p.request_id "-checkin") db.payments)
          || has_event p.request_id db.audit_events
      then failed unique_violation
      else done tt record {
        rooms = update_rooms p.room_id (room_set (check_in_update p)) db.rooms;
        stays = db.stays ++ check_in_stay p ∷ [];
        payments =
            if is_pos p.payment_amount then db.payments ++ check_in_payment p ∷ [] else db.payments;
        audit_events = db.audit_events ++ check_in_event p ∷ [];
      }

  -- The stays after an update of the stay that `findActiveStay` has found.
  unfoldable pub changed_stays :
      String → (StayRow A → StayRow A) → List (StayRow A) → List (StayRow A)
  changed_stays stay_id change stays =
      if stay_id == "" then stays else update_stays stay_id change stays

  unfoldable pub check_out_from : CheckOutParams → Db A → Option (String × Time) → Outcome A Unit
  check_out_from p db none = failed bad_time
  check_out_from p db (some (stay_id, guest_in)) =
      if has_event p.request_id db.audit_events
      then failed unique_violation
      else if not (has_room p.room_id db.rooms)
      then failed foreign_key_violation
      else done tt record {
        rooms =
            update_rooms p.room_id (room_set (unpaid_update p.room_id "vacant" false p.timestamp))
              db.rooms;
        stays = changed_stays stay_id (checked_out_stay guest_in p.timestamp) db.stays;
        payments = db.payments;
        audit_events =
            db.audit_events
            ++ accepted_event p.request_id p.room_id "check_out" p.actor "" "" "" p.timestamp ∷ [];
      }

  unfoldable pub extend_from : ExtendParams A → Db A → Option (String × Time) → Outcome A Unit
  extend_from p db none = failed bad_time
  extend_from p db (some (stay_id, guest_in)) =
      if is_pos p.payment_amount && has_payment (append p.request_id "-extend") db.payments
      then failed unique_violation
      else if is_pos p.payment_amount && not (has_room p.room_id db.rooms)
      then failed foreign_key_violation
      else if has_event p.request_id db.audit_events
      then failed unique_violation
      else if not (has_room p.room_id db.rooms)
      then failed foreign_key_violation
      else done tt record {
        rooms = update_rooms p.room_id (room_set (extend_update p)) db.rooms;
        stays = changed_stays stay_id (extended_stay p) db.stays;
        payments =
            if is_pos p.payment_amount
            then db.payments ++ extend_payment stay_id p ∷ []
            else db.payments;
        audit_events = db.audit_events ++ extend_event p ∷ [];
      }

  unfoldable pub payment_from :
      PaymentParams A → Db A → Option (String × Time) → Option (String × String) → Outcome A Unit
  payment_from p db none meta = failed bad_time
  payment_from p db (some (stay_id, guest_in)) none =
      if has_payment p.request_id db.payments
      then failed unique_violation
      else failed foreign_key_violation
  payment_from p db (some (stay_id, guest_in)) (some (stay_mode, case_code)) =
      if has_payment p.request_id db.payments || has_event p.request_id db.audit_events
      then failed unique_violation
      else done tt record {
        rooms =
            update_rooms p.room_id (payment_set p.amount p.method p.reference p.timestamp) db.rooms;
        stays = db.stays;
        payments =
            db.payments
            ++ stay_payment p.request_id p.method p.request_id stay_id p.room_id p.amount
                p.reference p.timestamp
              ∷ [];
        audit_events =
            db.audit_events
            ++ accepted_event p.request_id p.room_id "receive_payment" p.actor stay_mode case_code
                p.reference p.timestamp
              ∷ [];
      }

  -- The rooms after the `switch` of `RecordCommand`.
  unfoldable pub commanded_rooms : CommandParams → List (RoomRow A) → List (RoomRow A)
  commanded_rooms p rows =
      if p.action == "start_cleaning"
      then update_rooms p.room_id (room_set (unpaid_update p.room_id "cleaning" true p.timestamp))
          rows
      else if p.action == "finish_cleaning"
      then update_rooms p.room_id (room_set (unpaid_update p.room_id "vacant" false p.timestamp))
          rows
      else rows

  unfoldable pub command_from :
      CommandParams → Db A → List (StayRow A) → Option (String × String) → Outcome A Unit
  command_from p db stays none = failed no_rows
  command_from p db stays (some (stay_mode, case_code)) =
      if has_event p.request_id db.audit_events
      then failed unique_violation
      else done tt record {
        rooms = commanded_rooms p db.rooms;
        stays = stays;
        payments = db.payments;
        audit_events =
            db.audit_events
            ++ accepted_event p.request_id p.room_id p.action p.actor stay_mode case_code p.detail
                p.timestamp
              ∷ [];
      }

  module _ ⦃o : Collation⦄ where
    -- The stays after the `switch` of `RecordCommand`.
    unfoldable pub commanded_stays : CommandParams → List (StayRow A) → List (StayRow A)
    commanded_stays p stays =
        if p.action == "start_cleaning"
        then stays
        else if p.action == "finish_cleaning"
        then cleaned_stays p.room_id p.timestamp stays
        else stays

    -- `RecordCheckOut`.
    unfoldable pub check_out_tables : CheckOutParams → Db A → Outcome A Unit
    unfolding check_out_from
    check_out_tables p db = check_out_from p db (active_stay p.room_id db.stays)

    -- `RecordExtend`.
    unfoldable pub extend_tables : ExtendParams A → Db A → Outcome A Unit
    unfolding extend_from
    extend_tables p db = extend_from p db (active_stay p.room_id db.stays)

    -- `RecordPayment`.
    unfoldable pub payment_tables : PaymentParams A → Db A → Outcome A Unit
    unfolding payment_from
    payment_tables p db =
        payment_from p db (active_stay p.room_id db.stays) (room_meta p.room_id db.rooms)

    -- `RecordCommand`: the event names the stay mode and the case that the room has after the update.
    unfoldable pub command_tables : CommandParams → Db A → Outcome A Unit
    unfolding command_from
    command_tables p db =
        command_from p db (commanded_stays p db.stays)
          (room_meta p.room_id (commanded_rooms p db.rooms))
