-- ===== src/Database/Record.antt =====
-- The operations of store.go that a request of the server leads to: each is one transaction.
mod Params
unfoldable pub use Params.*
use ccs2_plus.Prelude.{String, append, Bool, true, false, Option, none, some, ◌==◌, if◌then◌else◌}
use ccs2_plus.Prelude.Int.{ℤ, pos}
use ccs2_plus.Prelude.Float.{Float64}
use ccs2_plus.Database.{
  Time, TimeText, format, parse, is_blank_text, Collation, RoomRow, StayRow, PaymentRow, AuditRow,
  bad_time, Action, pure, raise, ◌>>=◌, ◌>>◌, statement, with_tx,
}
use ccs2_plus.Database.Statements.{
  RoomUpdate, room_set, choose_payment_method, update_rooms, update_stays, set_rooms, set_stays,
  insert_stay_row, insert_payment_row, insert_audit_row, select_active_stay, cleaned_stays,
  select_room_meta, diff_minutes, decimal_int, joined_remark,
}
use ccs2_plus.Database.Record.Params.{
  CheckInParams, CheckOutParams, CommandParams, ExtendParams, PaymentParams, accepted_event,
  check_in_event, check_in_payment, check_in_stay, check_in_update, checked_out_stay, extend_event,
  extend_payment, extend_update, extended_stay, occupied_update, payment_set, stay_payment,
  unpaid_update,
}

module _ {A : Type 0} ⦃f : Float64 A⦄ where
  open f use {nought, add, is_pos}

  unfoldable pub update_room_state : RoomUpdate A → Action A Unit
  update_room_state p =
      statement "update room state"
        (λ db. set_rooms (update_rooms p.room_id (room_set p) db.rooms) db)

  unfoldable pub update_room_payment : String → A → String → String → Time → Action A Unit
  update_room_payment room_id amount method ref ts =
      statement "update room payment"
        (λ db. set_rooms (update_rooms room_id (payment_set amount method ref ts) db.rooms) db)

  unfoldable pub insert_payment : PaymentRow A → Action A Unit
  insert_payment row = statement "insert payment" (insert_payment_row row)

  unfoldable pub insert_audit : AuditRow → Action A Unit
  insert_audit row = statement "insert audit" (insert_audit_row row)

  -- The payment of a check-in or an extension, where there is one.
  unfoldable pub paid : A → PaymentRow A → Action A Unit
  paid amount row = if is_pos amount then insert_payment row else pure tt

  -- The function that `RecordCheckIn` gives to `withTx`.
  unfoldable pub check_in_body : CheckInParams A → Action A Unit
  check_in_body p = do
    update_room_state (check_in_update p)
    statement "insert stay checkin" (insert_stay_row (check_in_stay p))
    paid p.payment_amount (check_in_payment p)
    insert_audit (check_in_event p)

  unfoldable pub record_check_in : CheckInParams A → Action A Unit
  record_check_in p = with_tx (check_in_body p)

  -- `UPDATE stays … WHERE stay_id = ?` where a stay was found.
  unfoldable pub change_stay : String → String → (StayRow A → StayRow A) → Action A Unit
  change_stay context stay_id change =
      if stay_id == ""
      then pure tt
      else statement context (λ db. set_stays (update_stays stay_id change db.stays) db)

  -- The id of the stay and its `guest_in_at`, where the empty id stands for no stay and the time 0 for
  -- an absent one.
  unfoldable pub found_at : String → Option TimeText → Action A (String × Time)
  found_at stay_id none = pure (stay_id, 0)
  found_at stay_id (some text) =
      if is_blank_text text then pure (stay_id, 0) else elim (parse text) [
        | none ↦ raise (record { context = "parse active stay guest_in_at"; cause = bad_time })
        | some t ↦ pure (stay_id, t)
      ]

  unfoldable pub found_stay : Option (StayRow A) → Action A (String × Time)
  unfolding found_at
  found_stay none = pure ("", 0)
  found_stay (some row) = found_at row.stay_id row.guest_in_at

  module _ ⦃o : Collation⦄ where
    -- `findActiveStay`.
    unfoldable pub find_active_stay : String → Action A (String × Time)
    find_active_stay room_id = do
      row ← statement "find active stay" (select_active_stay room_id)
      found_stay row

    -- The function that `RecordCheckOut` gives to `withTx`.
    unfoldable pub check_out_body : CheckOutParams → Action A Unit
    check_out_body p = do
      stay ← find_active_stay p.room_id
      change_stay "update stay checkout" stay.0 (checked_out_stay stay.1 p.timestamp)
      update_room_state (unpaid_update p.room_id "vacant" false p.timestamp)
      insert_audit (accepted_event p.request_id p.room_id "check_out" p.actor "" "" "" p.timestamp)

    unfoldable pub record_check_out : CheckOutParams → Action A Unit
    record_check_out p = with_tx (check_out_body p)

    -- The function that `RecordExtend` gives to `withTx`.
    unfoldable pub extend_body : ExtendParams A → Action A Unit
    extend_body p = do
      stay ← find_active_stay p.room_id
      change_stay "update stay extend" stay.0 (extended_stay p)
      update_room_state (extend_update p)
      paid p.payment_amount (extend_payment stay.0 p)
      insert_audit (extend_event p)

    unfoldable pub record_extend : ExtendParams A → Action A Unit
    record_extend p = with_tx (extend_body p)

    -- The function that `RecordPayment` gives to `withTx`.
    unfoldable pub payment_body : PaymentParams A → Action A Unit
    payment_body p = do
      stay ← find_active_stay p.room_id
      update_room_payment p.room_id p.amount p.method p.reference p.timestamp
      insert_payment (
          stay_payment p.request_id p.method p.request_id stay.0 p.room_id p.amount p.reference
            p.timestamp)
      meta ← statement "load room meta" (select_room_meta p.room_id)
      insert_audit (
          accepted_event p.request_id p.room_id "receive_payment" p.actor meta.0 meta.1 p.reference
            p.timestamp)

    unfoldable pub record_payment : PaymentParams A → Action A Unit
    record_payment p = with_tx (payment_body p)

    -- The `switch` of `RecordCommand`; other actions change no row.
    unfoldable pub command_updates : CommandParams → Action A Unit
    command_updates p =
        if p.action == "start_cleaning"
        then update_room_state (unpaid_update p.room_id "cleaning" true p.timestamp)
        else if p.action == "finish_cleaning"
        then (do
          update_room_state (unpaid_update p.room_id "vacant" false p.timestamp)
          statement "mark clean up stay"
              (λ db. set_stays (cleaned_stays p.room_id p.timestamp db.stays) db))
        else pure tt

    unfoldable pub command_body : CommandParams → Action A Unit
    command_body p = do
      command_updates p
      meta ← statement "load room meta" (select_room_meta p.room_id)
      insert_audit (
          accepted_event p.request_id p.room_id p.action p.actor meta.0 meta.1 p.detail p.timestamp)

    unfoldable pub record_command : CommandParams → Action A Unit
    record_command p = with_tx (command_body p)
