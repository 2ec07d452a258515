-- ===== src/Database/Steps.antt =====
-- The statements and helpers of store.go as steps on the tables, and lookups after an update.
use ccs2_plus.Prelude.{
  ◌≡◌, refl, String, true, false, Option, none, some, List, [], ◌∷◌, if◌then◌else◌, arith,
}
use ccs2_plus.Prelude.Float.{Float64}
use ccs2_plus.Database.{
  Time, TimeText, rfc3339, other, Collation, RoomRow, StayRow, PaymentRow, AuditRow, Db, bad_time,
  Outcome, done, failed,
}
use ccs2_plus.Database.Statements.{
  RoomUpdate, room_set, has_room, update_rooms, set_rooms, set_stays, insert_payment_row,
  insert_audit_row, room_meta, select_active_stay,
}
use ccs2_plus.Database.Record.{
  update_room_state, update_room_payment, payment_set, insert_payment, insert_audit, paid, found_at,
  found_stay, find_active_stay, change_stay,
}
use ccs2_plus.Database.Tables.{found_time, found, active_stay, changed_stays}
use ccs2_plus.Database.Atomic.{
  Runs, chain, Runs-statement, Runs-bind, Runs-pure, Runs-raise, Runs-eq, Runs-if,
}

module _ {A : Type 0} where
  -- An update of rooms that keeps their ids keeps which ids there are.
  pub has_room-update_rooms :
      (key room_id : String) (change : RoomRow A → RoomRow A) (rows : List (RoomRow A))
      → ((row : RoomRow A) → (change row).room_id ≡ row.room_id)
      → has_room key (update_rooms room_id change rows) ≡ has_room key rows
  unfolding has_room update_rooms
  has_room-update_rooms key room_id change [] h = refl
  has_room-update_rooms key room_id change (row ∷ rows) h =
      ground (arith, h row, has_room-update_rooms key room_id change rows h)

  -- An update of rooms that keeps ids, stay modes and cases keeps what `roomMetaByID` reads.
  pub room_meta-update_rooms :
      (key room_id : String) (change : RoomRow A → RoomRow A) (rows : List (RoomRow A))
      → ((row : RoomRow A) → (change row).room_id ≡ row.room_id)
      → ((row : RoomRow A) → (change row).stay_mode ≡ row.stay_mode)
      → ((row : RoomRow A) → (change row).case_code ≡ row.case_code)
      → room_meta key (update_rooms room_id change rows) ≡ room_meta key rows
  unfolding room_meta update_rooms
  room_meta-update_rooms key room_id change [] h i j = refl
  room_meta-update_rooms key room_id change (row ∷ rows) h i j =
      ground (arith, h row, i row, j row, room_meta-update_rooms key room_id change rows h i j)

  -- `roomMetaByID` finds the rooms that there are.
  pub has_room-room_meta :
      (key : String) (rows : List (RoomRow A))
      → has_room key rows ≡ elim (room_meta key rows) [ none ↦ false | some meta ↦ true ]
  unfolding has_room room_meta
  has_room-room_meta key [] = refl
  has_room-room_meta key (row ∷ rows) = ground (arith, has_room-room_meta key rows)

  unfoldable pub named : Option (String × Time) → Db A → Outcome A (String × Time)
  named none db = failed bad_time
  named (some stay) db = done stay db

module _ {A : Type 0} ⦃f : Float64 A⦄ where
  open f use {is_pos}

  pub room_set-room_id :
      (p : RoomUpdate A) (row : RoomRow A) → (room_set p row).room_id ≡ row.room_id
  room_set-room_id p row = ground arith

  pub update_room_state-Runs :
      (p : RoomUpdate A)
      → Runs
          (update_room_state p)
          (λ db. set_rooms (update_rooms p.room_id (room_set p) db.rooms) db)
  unfolding update_room_state
  update_room_state-Runs p = Runs-statement _ _

  pub update_room_payment-Runs :
      (room_id : String) (amount : A) (method ref : String) (ts : Time)
      → Runs
          (update_room_payment room_id amount method ref ts)
          (λ db. set_rooms (update_rooms room_id (payment_set amount method ref ts) db.rooms) db)
  unfolding update_room_payment
  update_room_payment-Runs room_id amount method ref ts = Runs-statement _ _

  pub insert_audit-Runs : (row : AuditRow) → Runs {A = A} (insert_audit row) (insert_audit_row row)
  unfolding insert_audit
  insert_audit-Runs row = Runs-statement _ _

  pub insert_payment-Runs :
      (row : PaymentRow A) → Runs (insert_payment row) (insert_payment_row row)
  unfolding insert_payment
  insert_payment-Runs row = Runs-statement _ _

  pub paid-Runs :
      (amount : A) (row : PaymentRow A)
      → Runs
          (paid amount row)
          (λ db. if is_pos amount then insert_payment_row row db else done tt db)
  unfolding paid
  paid-Runs amount row = Runs-if _ _ _ _ _ (insert_payment-Runs row) (Runs-pure tt)

  pub change_stay-Runs :
      (context stay_id : String) (change : StayRow A → StayRow A)
      → Runs
          (change_stay context stay_id change)
          (λ db. set_stays (changed_stays stay_id change db.stays) db)
  unfolding change_stay changed_stays
  change_stay-Runs context stay_id change =
      Runs-eq _ _ _ (Runs-if _ _ _ _ _ (Runs-pure tt) (Runs-statement _ _)) (λ db. ground arith)

  found_at-Runs :
      (stay_id : String) (text : Option TimeText)
      → Runs {A = A} (found_at stay_id text) (named (found_time stay_id text))
  unfolding found_at found_time named
  found_at-Runs stay_id none = Runs-pure _
  found_at-Runs stay_id (some (rfc3339 s)) = Runs-pure _
  found_at-Runs stay_id (some (other text)) =
      Runs-eq _ _ _ (Runs-if _ _ _ _ _ (Runs-pure _) (Runs-raise _ _)) (λ db. ground arith)

  found_stay-Runs : (row : Option (StayRow A)) → Runs (found_stay row) (named (found row))
  unfolding found_stay found named
  found_stay-Runs none = Runs-pure _
  found_stay-Runs (some row) = found_at-Runs row.stay_id row.guest_in_at

  pub find_active_stay-Runs :
      ⦃o : Collation⦄ (room_id : String)
      → Runs {A = A} (find_active_stay room_id) (λ db. named (active_stay room_id db.stays) db)
  unfolding find_active_stay select_active_stay chain active_stay
  find_active_stay-Runs room_id =
      Runs-eq _ _ _ (Runs-bind _ _ _ _ (Runs-statement _ _) found_stay-Runs) (λ db. refl)
