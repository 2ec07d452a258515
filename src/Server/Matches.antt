-- ===== src/Server/Matches.antt =====
-- What each operation of the store and the update of the state in memory do to a room agree.
use ccs2_plus.Prelude.{
  ℕ, ◌≡◌, refl, sym, ◌∙◌, String, true, false, some, List, [], ◌∷◌, ◌==◌, if◌then◌else◌, arith,
}
use mathlib.Core.Path.{subst}
use ccs2_plus.Prelude.Int.{ℤ, pos, ◌+ℤ◌, wrap}
use ccs2_plus.Prelude.Float.{Float64}
use ccs2_plus.StateStore.{
  RoomState, StateStore, get, apply_check_in, apply_check_out, apply_command, apply_extend,
  apply_payment, checked_in, vacated, commanded, extended, paid_by, check_in_minutes,
}
use ccs2_plus.StateStore.Frame.{others_kept}
use ccs2_plus.Database.{Collation, RoomRow}
use ccs2_plus.Database.Statements.{RoomUpdate, room_set, update_rooms}
use ccs2_plus.Database.Record.{
  CheckInParams, CheckOutParams, ExtendParams, PaymentParams, CommandParams, unpaid_update,
  check_in_update, extend_update, payment_set,
}
use ccs2_plus.Database.Tables.{
  check_in_tables, check_out_from, check_out_tables, extend_from, extend_tables, payment_from,
  payment_tables, commanded_rooms, command_from, command_tables,
}
use ccs2_plus.Server.Handlers.{minutes_of}
use ccs2_plus.Server.Agreement.{Mirrors, Mirrors-update}
use ccs2_plus.Server.Mirror.{Matches}

module _ {A : Type 0} ⦃f : Float64 A⦄ where
  pub check_in-Matches :
      (p : CheckInParams A) (hours : ℤ) (now : ℕ) (s : StateStore A)
      → p.remaining_minutes ≡ check_in_minutes hours p.stay_mode
      → Matches
          (check_in_tables p)
          (apply_check_in p.room_id p.stay_mode p.case_code hours p.payment_amount p.payment_ref
            now)
          s
  check_in-Matches p hours now s h db db' e m =
      let rooms : db'.rooms ≡ update_rooms p.room_id (room_set (check_in_update p)) db.rooms =
        unfold check_in_tables in ground arith in
      subst (Mirrors _) (sym rooms) (
        Mirrors-update p.room_id
          (checked_in p.stay_mode p.case_code hours p.payment_amount p.payment_ref now)
          (room_set (check_in_update p)) s _ db.rooms
          (others_kept p.room_id p.stay_mode p.case_code "" p.payment_ref "" hours p.payment_amount
            now s).0
          (λ row. ground arith) (λ room row g a. (refl, refl, refl, h)) m)

  left :
      (s : StateStore A) (room_id : String) (room : RoomState A)
      → get s room_id ≡ some room
      → minutes_of (get s room_id) ≡ room.remaining_minutes
  left s room_id room g = rw g refl

  -- The change of a row in `RecordCommand`.
  abbrev command_set : CommandParams → RoomRow A → RoomRow A
  command_set p row =
      if p.action == "start_cleaning"
      then room_set (unpaid_update p.room_id "cleaning" true p.timestamp) row
      else if p.action == "finish_cleaning"
      then room_set (unpaid_update p.room_id "vacant" false p.timestamp) row
      else row

  commanded_rooms-update :
      (p : CommandParams) (rows : List (RoomRow A))
      → commanded_rooms p rows ≡ update_rooms p.room_id (command_set p) rows
  unfolding commanded_rooms update_rooms
  commanded_rooms-update p [] = ground arith
  commanded_rooms-update p (row ∷ rows) = ground (arith, commanded_rooms-update p rows)

  module _ ⦃o : Collation⦄ where
    pub check_out-Matches :
        (p : CheckOutParams) (now : ℕ) (s : StateStore A)
        → Matches (check_out_tables p) (apply_check_out p.room_id now) s
    check_out-Matches p now s db db' e m =
        let u : RoomUpdate A = unpaid_update p.room_id "vacant" false p.timestamp in
        let rooms : db'.rooms ≡ update_rooms p.room_id (room_set u) db.rooms =
          unfold check_out_tables check_out_from in ground arith in
        subst (Mirrors _) (sym rooms) (
          Mirrors-update p.room_id (vacated now) (room_set u) s _ db.rooms
            (others_kept p.room_id "" "" "" "" "" (pos 0) f.nought now s).1 (λ row. ground arith)
            (λ room row g a. (refl, refl, refl, refl)) m)

    pub command-Matches :
        (p : CommandParams) (now : ℕ) (s : StateStore A)
        → Matches (command_tables p) (apply_command p.room_id p.action now) s
    command-Matches p now s db db' e m =
        let rooms : db'.rooms ≡ commanded_rooms p db.rooms =
          unfold command_tables command_from in ground arith in
        subst (Mirrors _) (sym (rooms ∙ commanded_rooms-update p db.rooms)) (
          Mirrors-update p.room_id (commanded p.action now) (command_set p) s _ db.rooms
            (others_kept p.room_id "" "" "" "" p.action (pos 0) f.nought now s).2
            (λ row. ground arith) (λ room row g a. ground arith) m)

    pub extend-Matches :
        (p : ExtendParams A) (now : ℕ) (s : StateStore A)
        → (p.stay_mode == "") ≡ false
        → (p.case_code == "") ≡ false
        → p.remaining_minutes ≡ wrap (minutes_of (get s p.room_id) +ℤ p.extend_minutes)
        → Matches
            (extend_tables p)
            (apply_extend p.room_id p.stay_mode p.case_code p.extend_minutes p.payment_amount
              p.payment_ref now)
            s
    extend-Matches p now s g1 g2 h db db' e m =
        let rooms : db'.rooms ≡ update_rooms p.room_id (room_set (extend_update p)) db.rooms =
          unfold extend_tables extend_from in ground arith in
        subst (Mirrors _) (sym rooms) (
          Mirrors-update p.room_id
            (extended p.stay_mode p.case_code p.extend_minutes p.payment_amount p.payment_ref now)
            (room_set (extend_update p)) s _ db.rooms
            (others_kept p.room_id p.stay_mode p.case_code "" p.payment_ref "" p.extend_minutes
              p.payment_amount now s).3
            (λ row. ground arith)
            (λ room row g a. (refl, rw g1 refl, rw g2 refl, rw (sym (left s p.room_id room g)) h))
            m)

    pub payment-Matches :
        (p : PaymentParams A) (now : ℕ) (s : StateStore A)
        → Matches (payment_tables p) (apply_payment p.room_id p.amount p.method p.reference now) s
    payment-Matches p now s db db' e m =
        let set : RoomRow A → RoomRow A = payment_set p.amount p.method p.reference p.timestamp in
        let rooms : db'.rooms ≡ update_rooms p.room_id set db.rooms =
          unfold payment_tables payment_from in ground arith in
        subst (Mirrors _) (sym rooms) (
          Mirrors-update p.room_id (paid_by p.amount p.method p.reference now) set s _ db.rooms
            (others_kept p.room_id "" "" p.method p.reference "" (pos 0) p.amount now s).4
            (λ row. refl) (λ room row g a. a) m)
