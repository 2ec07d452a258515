-- ===== src/Database/Statements.antt =====
-- The SQL statements of store.go: what each reads and writes in the tables.
use Prim.Native.String.{compare}
use Prim.Native.Nat.{Ordering}
use ccs2_plus.Prelude.{
  ◌-◌, ◌*◌, ◌/◌, String, append, Bool, true, false, not, ◌&&◌, ◌||◌, Option, none, some, List, [],
  ◌∷◌, ◌++◌, ltb, eqb, ◌==◌, if◌then◌else◌, keep, trim, decimal,
}
use ccs2_plus.Prelude.Int.{ℤ, pos, negsuc}
use ccs2_plus.Prelude.Float.{Float64}
use ccs2_plus.Database.{
  Time, TimeText, format, Collation, RoomRow, StayRow, PaymentRow, AuditRow, Db, unique_violation,
  foreign_key_violation, no_rows, Outcome, done, failed,
}

module _ {A : Type 0} where
  -- Whether the foreign key of a row refers to a room.
  unfoldable pub has_room : String → List (RoomRow A) → Bool
  has_room room_id [] = false
  has_room room_id (row ∷ rows) = row.room_id == room_id || has_room room_id rows

-- Whether a row has the given key: the test of a primary key.
unfoldable pub has_key : {R : Type 0} → (R → String) → String → List R → Bool
has_key key k [] = false
has_key key k (row ∷ rows) = key row == k || has_key key k rows

abbrev pub has_stay : {A : Type 0} → String → List (StayRow A) → Bool
has_stay stay_id rows = has_key (λ row. row.stay_id) stay_id rows

abbrev pub has_payment : {A : Type 0} → String → List (PaymentRow A) → Bool
has_payment payment_id rows = has_key (λ row. row.payment_id) payment_id rows

abbrev pub has_event : String → List AuditRow → Bool
has_event event_id rows = has_key (λ row. row.event_id) event_id rows

-- `roomUpdate`.
pub record RoomUpdate (A : Type 0) : Type 0 where
  pub room_id : String
  pub status : String
  pub stay_mode : String
  pub case_code : String
  pub controller_online : Bool
  pub remaining_minutes : ℤ
  pub last_payment_amount : A
  pub last_payment_method : String
  pub last_payment_ref : String
  pub touch_only : Bool
  pub updated_at : Time

module _ {A : Type 0} ⦃f : Float64 A⦄ where
  open f use {nought, is_nought, le_nought}

  -- The row that the `SET` list of `updateRoomState` writes, in its two versions.
  abbrev pub room_set : RoomUpdate A → RoomRow A → RoomRow A
  room_set p row =
      let online : ℤ = if p.controller_online then pos 1 else pos 0 in
      if p.touch_only
      then record row {
        status = p.status;
        controller_online = online;
        updated_at = format p.updated_at;
      }
      else record row {
        status = p.status;
        stay_mode = p.stay_mode;
        case_code = p.case_code;
        controller_online = online;
        remaining_minutes = p.remaining_minutes;
        last_payment_amount =
            if is_nought p.last_payment_amount
            then row.last_payment_amount
            else p.last_payment_amount;
        last_payment_method =
            if p.last_payment_method == "" then row.last_payment_method else p.last_payment_method;
        last_payment_ref =
            if p.last_payment_ref == "" then row.last_payment_ref else p.last_payment_ref;
        updated_at = format p.updated_at;
      }

  unfoldable pub choose_payment_method : A → String → String
  choose_payment_method amount fallback = if le_nought amount then "" else fallback

module _ {A : Type 0} where
  -- `UPDATE rooms SET … WHERE room_id = ?`; no row is no error.
  unfoldable pub update_rooms :
      String → (RoomRow A → RoomRow A) → List (RoomRow A) → List (RoomRow A)
  update_rooms room_id change [] = []
  update_rooms room_id change (row ∷ rows) =
      (if row.room_id == room_id then change row else row) ∷ update_rooms room_id change rows

  -- `UPDATE stays SET … WHERE stay_id = ?`.
  unfoldable pub update_stays :
      String → (StayRow A → StayRow A) → List (StayRow A) → List (StayRow A)
  update_stays stay_id change [] = []
  update_stays stay_id change (row ∷ rows) =
      (if row.stay_id == stay_id then change row else row) ∷ update_stays stay_id change rows

  abbrev pub set_rooms : List (RoomRow A) → Db A → Outcome A Unit
  set_rooms rows db = done tt (record db { rooms = rows })

  abbrev pub set_stays : List (StayRow A) → Db A → Outcome A Unit
  set_stays rows db = done tt (record db { stays = rows })

  unfoldable pub insert_stay_row : StayRow A → Db A → Outcome A Unit
  insert_stay_row row db =
      if has_stay row.stay_id db.stays
      then failed unique_violation
      else if has_room row.room_id db.rooms
      then set_stays (db.stays ++ row ∷ []) db
      else failed foreign_key_violation

  unfoldable pub insert_payment_row : PaymentRow A → Db A → Outcome A Unit
  insert_payment_row row db =
      if has_payment row.payment_id db.payments
      then failed unique_violation
      else if has_room row.room_id db.rooms
      then done tt (record db { payments = db.payments ++ row ∷ [] })
      else failed foreign_key_violation

  unfoldable pub insert_audit_row : AuditRow → Db A → Outcome A Unit
  insert_audit_row row db =
      if has_event row.event_id db.audit_events
      then failed unique_violation
      else if has_room row.room_id db.rooms
      then done tt (record db { audit_events = db.audit_events ++ row ∷ [] })
      else failed foreign_key_violation

-- `a < b` for ids.
abbrev pub id_before : String → String → Bool
id_before a b = elim (compare a b) [ Ordering.lt ↦ true | _ ↦ false ]

module _ ⦃o : Collation⦄ where
  -- The order of a nullable text column: NULL comes first.
  abbrev pub null_before : Option TimeText → Option TimeText → Bool
  null_before none none = false
  null_before none (some b) = true
  null_before (some a) none = false
  null_before (some a) (some b) = o.before a b

  -- `ORDER BY time DESC, stay_id DESC`: whether the second row comes before the first.
  abbrev pub row_before :
      {A : Type 0} → (StayRow A → Option TimeText) → StayRow A → StayRow A → Bool
  row_before time a b =
      null_before (time a) (time b)
      || (not (null_before (time b) (time a)) && id_before a.stay_id b.stay_id)

  -- `… LIMIT 1`: the first row in that order.
  unfoldable pub last_row :
      {A : Type 0} → (StayRow A → Option TimeText) → List (StayRow A) → Option (StayRow A)
  last_row time [] = none
  last_row time (row ∷ rows) = elim (last_row time rows) [
    | none ↦ some row
    | some best ↦ if row_before time row best then some best else some row
  ]

  abbrev pub is_active : {A : Type 0} → String → StayRow A → Bool
  is_active room_id row = row.room_id == room_id && row.status == "in_use"

  abbrev pub is_out : {A : Type 0} → String → StayRow A → Bool
  is_out room_id row =
      row.room_id == room_id && elim row.guest_out_at [ none ↦ false | some t ↦ true ]

  module _ {A : Type 0} where
    -- The query of `findActiveStay`.
    unfoldable pub select_active_stay : String → Db A → Outcome A (Option (StayRow A))
    select_active_stay room_id db =
        done (last_row (λ (row : StayRow A). row.guest_in_at) (keep (is_active room_id) db.stays))
          db

    -- `clean_up_at = COALESCE(clean_up_at, ?)`.
    abbrev pub cleaned_up : Time → StayRow A → StayRow A
    cleaned_up ts row = record row {
      clean_up_at = elim row.clean_up_at [ none ↦ some (format ts) | some t ↦ some t ];
      last_updated_at = format ts;
    }

    -- The stays after the update of `closeCleaningForLatestStay`: of the room's stays with an end, the
    -- one that ended last is marked.
    unfoldable pub cleaned_stays : String → Time → List (StayRow A) → List (StayRow A)
    cleaned_stays room_id ts stays =
        elim (last_row (λ (row : StayRow A). row.guest_out_at) (keep (is_out room_id) stays)) [
          | none ↦ stays
          | some last ↦ update_stays last.stay_id (cleaned_up ts) stays
        ]

module _ {A : Type 0} where
  -- `SELECT stay_mode, case_code FROM rooms WHERE room_id = ?`; `room_id` is a key.
  unfoldable pub room_meta : String → List (RoomRow A) → Option (String × String)
  room_meta room_id [] = none
  room_meta room_id (row ∷ rows) =
      if row.room_id == room_id then some (row.stay_mode, row.case_code) else room_meta room_id rows

  unfoldable pub select_room_meta : String → Db A → Outcome A (String × String)
  select_room_meta room_id db = elim (room_meta room_id db.rooms) [
    | none ↦ failed no_rows
    | some meta ↦ done meta db
  ]

-- `int(end.Sub(start).Minutes())`, with the fraction of a minute cut off; 0 for the zero time and
-- where the end comes first. A duration of more than 292 years, where `Sub` stops, does not occur.
unfoldable pub diff_minutes : Time → Time → ℤ
diff_minutes start end =
    if eqb start 0 || ltb end start then pos 0 else pos ((end - start) / (60 * 1000000000))

-- `%d` of an integer.
abbrev pub decimal_int : ℤ → String
decimal_int (pos n) = decimal n
decimal_int (negsuc n) = append "-" (decimal (Prim.Native.Nat.suc n))

-- `TRIM(COALESCE(remark, '') || CASE WHEN COALESCE(remark, '') = '' THEN '' ELSE '; ' END || ?)`; the
-- column is never NULL.
abbrev pub joined_remark : String → String → String
joined_remark remark note = trim (append (append remark (if remark == "" then "" else "; ")) note)
