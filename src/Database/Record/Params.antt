-- ===== src/Database/Record/Params.antt =====
-- The parameters of the operations of store.go, and the rows and updates that they lead to.
use ccs2_plus.Prelude.{String, append, Bool, true, false, none, some}
use ccs2_plus.Prelude.Int.{ℤ, pos}
use ccs2_plus.Prelude.Float.{Float64}
use ccs2_plus.Database.{Time, format, RoomRow, StayRow, PaymentRow, AuditRow}
use ccs2_plus.Database.Statements.{
  RoomUpdate, choose_payment_method, diff_minutes, decimal_int, joined_remark,
}

pub record CheckInParams (A : Type 0) : Type 0 where
  pub request_id : String
  pub room_id : String
  pub stay_mode : String
  pub case_code : String
  pub remaining_minutes : ℤ
  pub payment_amount : A
  pub payment_ref : String
  pub actor : String
  pub timestamp : Time

pub record CheckOutParams : Type 0 where
  pub request_id : String
  pub room_id : String
  pub actor : String
  pub timestamp : Time

pub record ExtendParams (A : Type 0) : Type 0 where
  pub request_id : String
  pub room_id : String
  pub stay_mode : String
  pub case_code : String
  pub remaining_minutes : ℤ
  pub extend_minutes : ℤ
  pub payment_amount : A
  pub payment_ref : String
  pub actor : String
  pub timestamp : Time

pub record PaymentParams (A : Type 0) : Type 0 where
  pub request_id : String
  pub room_id : String
  pub amount : A
  pub method : String
  pub reference : String
  pub actor : String
  pub timestamp : Time

pub record CommandParams : Type 0 where
  pub request_id : String
  pub room_id : String
  pub action : String
  pub actor : String
  pub detail : String
  pub timestamp : Time

-- An event with the result "accepted", as each operation writes it.
abbrev pub accepted_event :
    String → String → String → String → String → String → String → Time → AuditRow
accepted_event event_id room_id action actor stay_mode case_code detail ts = record {
  event_id = event_id;
  room_id = room_id;
  action = action;
  actor = actor;
  result = "accepted";
  stay_mode = stay_mode;
  case_code = case_code;
  detail = detail;
  event_time = format ts;
}

module _ {A : Type 0} ⦃f : Float64 A⦄ where
  open f use {nought, add, is_pos}

  -- A `roomUpdate` that names no payment.
  abbrev pub unpaid_update : String → String → Bool → Time → RoomUpdate A
  unpaid_update room_id status touch_only ts = record {
    room_id = room_id;
    status = status;
    stay_mode = "";
    case_code = "";
    controller_online = true;
    remaining_minutes = pos 0;
    last_payment_amount = nought;
    last_payment_method = "";
    last_payment_ref = "";
    touch_only = touch_only;
    updated_at = ts;
  }

  -- The row of a room that `updateRoomPayment` writes.
  abbrev pub payment_set : A → String → String → Time → RoomRow A → RoomRow A
  payment_set amount method ref ts row = record row {
    last_payment_amount = amount;
    last_payment_method = method;
    last_payment_ref = ref;
    updated_at = format ts;
  }

  unfoldable pub check_in_stay : CheckInParams A → StayRow A
  check_in_stay p = record {
    stay_id = p.request_id;
    request_id = p.request_id;
    room_id = p.room_id;
    stay_mode = p.stay_mode;
    case_code = p.case_code;
    status = "in_use";
    guest_in_at = some (format p.timestamp);
    guest_out_at = none;
    clean_up_at = none;
    allocated_minutes = p.remaining_minutes;
    used_minutes = pos 0;
    payment_amount = p.payment_amount;
    payment_ref = p.payment_ref;
    remark = "";
    last_updated_at = format p.timestamp;
  }

  -- The row of `insertPayment`.
  abbrev pub stay_payment :
      String → String → String → String → String → A → String → Time → PaymentRow A
  stay_payment payment_id method request_id stay_id room_id amount reference ts = record {
    payment_id = payment_id;
    request_id = request_id;
    stay_id = stay_id;
    room_id = room_id;
    amount = amount;
    method = method;
    reference = reference;
    paid_at = format ts;
  }

  -- The `roomUpdate` of a check-in or an extension.
  abbrev pub occupied_update :
      String → String → String → String → ℤ → A → String → Time → RoomUpdate A
  occupied_update method room_id stay_mode case_code minutes amount reference ts = record {
    room_id = room_id;
    status = "occupied";
    stay_mode = stay_mode;
    case_code = case_code;
    controller_online = true;
    remaining_minutes = minutes;
    last_payment_amount = amount;
    last_payment_method = choose_payment_method amount method;
    last_payment_ref = reference;
    touch_only = false;
    updated_at = ts;
  }

  abbrev pub check_in_update : CheckInParams A → RoomUpdate A
  check_in_update p =
      occupied_update "check_in" p.room_id p.stay_mode p.case_code p.remaining_minutes
        p.payment_amount p.payment_ref p.timestamp

  abbrev pub check_in_payment : CheckInParams A → PaymentRow A
  check_in_payment p =
      stay_payment (append p.request_id "-checkin") "check_in" p.request_id p.request_id p.room_id
        p.payment_amount p.payment_ref p.timestamp

  abbrev pub check_in_event : CheckInParams A → AuditRow
  check_in_event p =
      accepted_event p.request_id p.room_id "check_in" p.actor p.stay_mode p.case_code p.payment_ref
        p.timestamp

  -- The stay's row at a check-out.
  abbrev pub checked_out_stay : Time → Time → StayRow A → StayRow A
  checked_out_stay guest_in ts row = record row {
    status = "checked_out";
    guest_out_at = some (format ts);
    used_minutes = diff_minutes guest_in ts;
    last_updated_at = format ts;
  }

  -- The stay's row after an extension.
  abbrev pub extended_stay : ExtendParams A → StayRow A → StayRow A
  extended_stay p row = record row {
    stay_mode = p.stay_mode;
    case_code = p.case_code;
    allocated_minutes = p.remaining_minutes;
    payment_amount = add row.payment_amount p.payment_amount;
    payment_ref = p.payment_ref;
    last_updated_at = format p.timestamp;
    remark = joined_remark row.remark (append "extend_minutes=" (decimal_int p.extend_minutes));
  }

  abbrev pub extend_update : ExtendParams A → RoomUpdate A
  extend_update p =
      occupied_update "extend" p.room_id p.stay_mode p.case_code p.remaining_minutes
        p.payment_amount p.payment_ref p.timestamp

  abbrev pub extend_payment : String → ExtendParams A → PaymentRow A
  extend_payment stay_id p =
      stay_payment (append p.request_id "-extend") "extend" p.request_id stay_id p.room_id
        p.payment_amount p.payment_ref p.timestamp

  abbrev pub extend_event : ExtendParams A → AuditRow
  extend_event p =
      accepted_event p.request_id p.room_id "extend_stay" p.actor p.stay_mode p.case_code
        p.payment_ref p.timestamp
