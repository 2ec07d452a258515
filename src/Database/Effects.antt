-- ===== src/Database/Effects.antt =====
-- What the transactions of store.go commit.
use ccs2_plus.Prelude.{◌≡◌, refl, true, false, none, ◌==◌, arith}
use ccs2_plus.Prelude.Float.{Float64}
use ccs2_plus.Database.{Collation, Conn, done}
use ccs2_plus.Database.Statements.{
  RoomUpdate, room_set, insert_stay_row, insert_payment_row, insert_audit_row, select_room_meta,
  cleaned_stays, set_stays,
}
use ccs2_plus.Database.Record.{
  CheckInParams, CheckOutParams, ExtendParams, PaymentParams, CommandParams, unpaid_update,
  check_in_stay, check_in_update, check_in_body, record_check_in, check_out_body, record_check_out,
  extend_update, extend_body, record_extend, payment_set, payment_body, record_payment,
  command_updates, command_body, record_command,
}
use ccs2_plus.Database.Tables.{
  check_in_tables, check_out_from, check_out_tables, extend_from, extend_tables, payment_from,
  payment_tables, commanded_rooms, commanded_stays, command_from, command_tables,
}
use ccs2_plus.Database.Atomic.{
  Runs, chain, Runs-statement, Runs-bind, Runs-pure, Runs-eq, Runs-if, Settled, with_tx-Settled,
}
use ccs2_plus.Database.Steps.{
  has_room-update_rooms, room_meta-update_rooms, has_room-room_meta, named, room_set-room_id,
  update_room_state-Runs, update_room_payment-Runs, insert_audit-Runs, insert_payment-Runs,
  paid-Runs, change_stay-Runs, find_active_stay-Runs,
}

module _ {A : Type 0} ⦃f : Float64 A⦄ where
  check_in_body-Runs : (p : CheckInParams A) → Runs (check_in_body p) (check_in_tables p)
  unfolding check_in_body check_in_tables chain insert_stay_row insert_payment_row insert_audit_row
      check_in_stay
  check_in_body-Runs p =
      Runs-eq _ _ _
        (Runs-bind _ _ _ _ (update_room_state-Runs _) λ _.
          Runs-bind _ _ _ _ (Runs-statement _ _)
            λ _. Runs-bind _ _ _ _ (paid-Runs _ _) λ _. insert_audit-Runs _)
        (λ db. ground (
          arith,
          has_room-update_rooms p.room_id p.room_id (room_set (check_in_update p)) db.rooms
              (room_set-room_id (check_in_update p)),
        ))

  -- `RecordCheckIn`, on a connection with no transaction open, either commits what `check_in_tables`
  -- makes of the tables, or fails and leaves them as they were. It fails only where a call of the
  -- driver does or `check_in_tables` refuses. No transaction is left open.
  pub record_check_in-Settled :
      (p : CheckInParams A) (c : Conn A)
      → c.pending ≡ none
      → Settled (check_in_tables p c.committed) c (record_check_in p c)
  unfolding record_check_in
  record_check_in-Settled p c h = with_tx-Settled _ _ c (check_in_body-Runs p) h

  module _ ⦃o : Collation⦄ where
    check_out_body-Runs :
        (p : CheckOutParams) → Runs {A = A} (check_out_body p) (check_out_tables p)
    unfolding check_out_body check_out_tables check_out_from chain insert_audit_row named
    check_out_body-Runs p =
        Runs-eq _ _ _
          (Runs-bind _ _ _ _ (find_active_stay-Runs p.room_id) λ stay.
            Runs-bind _ _ _ _ (change_stay-Runs _ _ _)
              λ _. Runs-bind _ _ _ _ (update_room_state-Runs _) λ _. insert_audit-Runs _)
          (λ db.
            let u : RoomUpdate A = unpaid_update p.room_id "vacant" false p.timestamp in
            ground (
              arith,
              has_room-update_rooms p.room_id p.room_id (room_set u) db.rooms (room_set-room_id u),
            ))

    extend_body-Runs : (p : ExtendParams A) → Runs (extend_body p) (extend_tables p)
    unfolding extend_body extend_tables extend_from chain insert_payment_row insert_audit_row named
    extend_body-Runs p =
        Runs-eq _ _ _
          (Runs-bind _ _ _ _ (find_active_stay-Runs p.room_id) λ stay.
            Runs-bind _ _ _ _ (change_stay-Runs _ _ _) λ _.
              Runs-bind _ _ _ _ (update_room_state-Runs _)
                λ _. Runs-bind _ _ _ _ (paid-Runs _ _) λ _. insert_audit-Runs _)
          (λ db. ground (
            arith,
            has_room-update_rooms p.room_id p.room_id (room_set (extend_update p)) db.rooms
                (room_set-room_id (extend_update p)),
          ))

    payment_body-Runs : (p : PaymentParams A) → Runs (payment_body p) (payment_tables p)
    unfolding payment_body payment_tables payment_from chain insert_payment_row insert_audit_row
        named select_room_meta
    payment_body-Runs p =
        Runs-eq _ _ _
          (Runs-bind _ _ _ _ (find_active_stay-Runs p.room_id) λ stay.
            Runs-bind _ _ _ _ (update_room_payment-Runs _ _ _ _ _) λ _.
              Runs-bind _ _ _ _ (insert_payment-Runs _)
                λ _. Runs-bind _ _ _ _ (Runs-statement _ _) λ meta. insert_audit-Runs _)
          (λ db. ground (
            arith,
            has_room-update_rooms p.room_id p.room_id
                (payment_set p.amount p.method p.reference p.timestamp) db.rooms (λ row. refl),
            room_meta-update_rooms p.room_id p.room_id
                (payment_set p.amount p.method p.reference p.timestamp) db.rooms (λ row. refl)
                (λ row. refl) (λ row. refl),
            has_room-room_meta p.room_id db.rooms,
          ))

    command_updates-Runs :
        (p : CommandParams)
        → Runs {A = A} (command_updates p) (λ db.
          done tt
            (record db { rooms = commanded_rooms p db.rooms; stays = commanded_stays p db.stays }))
    unfolding command_updates commanded_rooms commanded_stays chain
    command_updates-Runs p =
        Runs-eq _ _ _
          (Runs-if (p.action == "start_cleaning") _ _ _ _
            (update_room_state-Runs (unpaid_update p.room_id "cleaning" true p.timestamp))
            (Runs-if (p.action == "finish_cleaning") _ _ _ _
              (Runs-bind _ _ _ _
                (update_room_state-Runs (unpaid_update p.room_id "vacant" false p.timestamp))
                λ _.
                  Runs-statement "mark clean up stay"
                    (λ db. set_stays (cleaned_stays p.room_id p.timestamp db.stays) db))
              (Runs-pure tt)))
          (λ db. ground arith)

    command_body-Runs : (p : CommandParams) → Runs {A = A} (command_body p) (command_tables p)
    unfolding command_body command_tables command_from chain insert_audit_row select_room_meta
    command_body-Runs p =
        Runs-eq _ _ _
          (Runs-bind _ _ _ _ (command_updates-Runs p)
            λ _. Runs-bind _ _ _ _ (Runs-statement _ _) λ meta. insert_audit-Runs _)
          (λ db. ground (arith, has_room-room_meta p.room_id (commanded_rooms p db.rooms)))

    -- `RecordCheckOut`, on a connection with no transaction open, either commits what
    -- `check_out_tables` makes of the tables, or fails and leaves them as they were. It fails only where
    -- a call of the driver does or `check_out_tables` refuses. No transaction is left open.
    pub record_check_out-Settled :
        (p : CheckOutParams) (c : Conn A)
        → c.pending ≡ none
        → Settled (check_out_tables p c.committed) c (record_check_out p c)
    unfolding record_check_out
    record_check_out-Settled p c h = with_tx-Settled _ _ c (check_out_body-Runs p) h

    -- `RecordExtend`, on a connection with no transaction open, either commits what `extend_tables` makes of
    -- the tables, or fails and leaves them as they were. It fails only where a call of the driver does or
    -- `extend_tables` refuses. No transaction is left open.
    pub record_extend-Settled :
        (p : ExtendParams A) (c : Conn A)
        → c.pending ≡ none
        → Settled (extend_tables p c.committed) c (record_extend p c)
    unfolding record_extend
    record_extend-Settled p c h = with_tx-Settled _ _ c (extend_body-Runs p) h

    -- `RecordPayment`, on a connection with no transaction open, either commits what `payment_tables` makes of
    -- the tables, or fails and leaves them as they were. It fails only where a call of the driver does or
    -- `payment_tables` refuses. No transaction is left open.
    pub record_payment-Settled :
        (p : PaymentParams A) (c : Conn A)
        → c.pending ≡ none
        → Settled (payment_tables p c.committed) c (record_payment p c)
    unfolding record_payment
    record_payment-Settled p c h = with_tx-Settled _ _ c (payment_body-Runs p) h

    -- `RecordCommand`, on a connection with no transaction open, either commits what `command_tables` makes of
    -- the tables, or fails and leaves them as they were. It fails only where a call of the driver does or
    -- `command_tables` refuses. No transaction is left open.
    pub record_command-Settled :
        (p : CommandParams) (c : Conn A)
        → c.pending ≡ none
        → Settled (command_tables p c.committed) c (record_command p c)
    unfolding record_command
    record_command-Settled p c h = with_tx-Settled _ _ c (command_body-Runs p) h
