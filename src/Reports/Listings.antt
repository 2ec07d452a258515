-- ===== src/Reports/Listings.antt =====
-- The reads of go-backend/internal/store/store.go for the workbooks, in each of which a fault stands
-- for any error of the query: listStaysByDate to listAuditAll, DailyWorkbookData and
-- MonthlyWorkbookData.
use ccs2_plus.Prelude.{
  ◌-◌, String, Bool, true, false, not, ◌&&◌, ◌||◌, Option, none, some, List, [], ◌∷◌, eqb, leb,
  if◌then◌else◌, keep, ◌+◌, ◌==◌,
}
use ccs2_plus.Prelude.Int.{ℤ}
use ccs2_plus.Database.{
  Time, parse, TimeText, Collation, StayRow, PaymentRow, AuditRow, bad_time, ok, err,
}
use ccs2_plus.Database.Statements.{id_before}
use ccs2_plus.Database.Reads.{RoomRecord, AuditRecord, scan_events, list_rooms}
use ccs2_plus.Reports.{
  Location, day_of, midnight, month_of, first_of, Call, call, on_conn, and_then, returns, PeriodKey,
  day_key, month_key,
}

pub record StayRecord (A : Type 0) : Type 0 where
  pub stay_id : String
  pub request_id : String
  pub room_id : String
  pub stay_mode : String
  pub case_code : String
  pub status : String
  pub guest_in_at : Option Time
  pub guest_out_at : Option Time
  pub clean_up_at : Option Time
  pub allocated_minutes : ℤ
  pub used_minutes : ℤ
  pub payment_amount : A
  pub payment_ref : String
  pub remark : String
  pub last_updated_at : Time

pub record PaymentRecord (A : Type 0) : Type 0 where
  pub payment_id : String
  pub request_id : String
  pub stay_id : String
  pub room_id : String
  pub amount : A
  pub method : String
  pub reference : String
  pub paid_at : Time

-- `DailyWorkbookData` and `MonthlyWorkbookData`, with the date or the month.
pub record WorkbookData (A : Type 0) : Type 0 where
  pub period : PeriodKey
  pub rooms : List (RoomRecord A)
  pub stays : List (StayRecord A)
  pub payments : List (PaymentRecord A)
  pub audits : List AuditRecord

-- `ORDER BY`.
module _ {R : Type 0} (before : R → R → Bool) where
  unfoldable pub place_by : R → List R → List R
  place_by row [] = row ∷ []
  place_by row (r ∷ rows) =
      let rest = place_by row rows in if before r row then r ∷ rest else row ∷ r ∷ rows

  unfoldable pub sort_by : List R → List R
  sort_by [] = []
  sort_by (row ∷ rows) = place_by row (sort_by rows)

-- `parseNullableTime`: a text that is blank or no time counts as absent.
abbrev pub parse_nullable_time : Option TimeText → Option Time
parse_nullable_time none = none
parse_nullable_time (some text) = parse text

abbrev pub same_local_date : Location → Time → Time → Bool
same_local_date loc ts day = eqb (day_of loc ts) (day_of loc day)

abbrev pub same_local_month : Location → Time → Time → Bool
same_local_month loc ts month = eqb (month_of (day_of loc ts)) (month_of (day_of loc month))

abbrev pub is_time : (Time → Bool) → Option Time → Bool
is_time test none = false
is_time test (some t) = test t

abbrev pub month_start : Location → Time → Time
month_start loc month = midnight loc (first_of (month_of (day_of loc month)))

-- `AddDate(0, 1, 0)` of the first of a month is the first of the next; then less a nanosecond.
abbrev pub month_end : Location → Time → Time
month_end loc month = midnight loc (first_of (month_of (day_of loc month) + 1)) - 1

module _ ⦃o : Collation⦄ where
  abbrev pub null_before : Option TimeText → Option TimeText → Bool
  null_before none none = false
  null_before none (some t) = true
  null_before (some t) none = false
  null_before (some t) (some u) = o.before t u

  -- `ORDER BY event_time, event_id`.
  abbrev pub audit_before : AuditRow → AuditRow → Bool
  audit_before a b =
      o.before a.event_time b.event_time
      || (not (o.before b.event_time a.event_time) && id_before a.event_id b.event_id)

module _ {A : Type 0} where
  -- The loop over the times of a stay, for one test of a time.
  abbrev pub stay_matches : (Time → Bool) → StayRecord A → Bool
  stay_matches test stay =
      is_time test stay.guest_in_at
      || is_time test stay.guest_out_at
      || is_time test stay.clean_up_at
      || test stay.last_updated_at

  abbrev pub stay_matches_date : Location → Time → StayRecord A → Bool
  stay_matches_date loc day stay = stay_matches (λ ts. same_local_date loc ts day) stay

  -- `!local.Before(start) && !local.After(end)`.
  abbrev pub stay_matches_date_range : Time → Time → StayRecord A → Bool
  stay_matches_date_range start end stay = stay_matches (λ ts. leb start ts && leb ts end) stay

  abbrev pub stay_record : StayRow A → Time → StayRecord A
  stay_record row t = record {
    stay_id = row.stay_id;
    request_id = row.request_id;
    room_id = row.room_id;
    stay_mode = row.stay_mode;
    case_code = row.case_code;
    status = row.status;
    guest_in_at = parse_nullable_time row.guest_in_at;
    guest_out_at = parse_nullable_time row.guest_out_at;
    clean_up_at = parse_nullable_time row.clean_up_at;
    allocated_minutes = row.allocated_minutes;
    used_minutes = row.used_minutes;
    payment_amount = row.payment_amount;
    payment_ref = row.payment_ref;
    remark = row.remark;
    last_updated_at = t;
  }

  abbrev pub payment_record : PaymentRow A → Time → PaymentRecord A
  payment_record row t = record {
    payment_id = row.payment_id;
    request_id = row.request_id;
    stay_id = row.stay_id;
    room_id = row.room_id;
    amount = row.amount;
    method = row.method;
    reference = row.reference;
    paid_at = t;
  }

  abbrev pub with_stay :
      StayRow A → Option Time → Option (List (StayRecord A)) → Option (List (StayRecord A))
  with_stay row none records = none
  with_stay row (some t) none = none
  with_stay row (some t) (some records) = some (stay_record row t ∷ records)

  -- The loop over the rows; `none` where `last_updated_at` cannot be read.
  unfoldable pub scan_stays : List (StayRow A) → Option (List (StayRecord A))
  scan_stays [] = some []
  scan_stays (row ∷ rows) = with_stay row (parse row.last_updated_at) (scan_stays rows)

  abbrev pub with_payment :
      PaymentRow A → Option Time → Option (List (PaymentRecord A)) → Option (List (PaymentRecord A))
  with_payment row none records = none
  with_payment row (some t) none = none
  with_payment row (some t) (some records) = some (payment_record row t ∷ records)

  unfoldable pub scan_payments : List (PaymentRow A) → Option (List (PaymentRecord A))
  scan_payments [] = some []
  scan_payments (row ∷ rows) = with_payment row (parse row.paid_at) (scan_payments rows)

  -- The rows of a query, or the error of the first that cannot be read.
  abbrev pub read_rows : {R : Type 0} → String → Option R → Call A R
  read_rows context none b = (err (record { context = context; cause = bad_time }), b)
  read_rows context (some records) b = (ok records, b)

  -- The test of the loop, or of the caller, picks the records of the period.
  abbrev pub picked : {R : Type 0} → (R → Bool) → Call A (List R) → Call A (List R)
  picked test m = and_then m λ records. returns (keep test records)

  -- The four lists, read one after another.
  unfoldable pub gathered :
      PeriodKey
      → Call A (List (StayRecord A))
      → Call A (List (PaymentRecord A))
      → Call A (List AuditRecord)
      → Call A (WorkbookData A)
  gathered period list_stays list_payments list_audit = and_then (on_conn list_rooms) λ rooms.
      and_then list_stays λ stays. and_then list_payments λ payments. and_then list_audit λ audits.
        returns (record {
          period = period;
          rooms = rooms;
          stays = stays;
          payments = payments;
          audits = audits;
        })

  module _ ⦃o : Collation⦄ where
    -- `ORDER BY room_id, guest_in_at`, where NULL comes first.
    abbrev pub stay_before : StayRow A → StayRow A → Bool
    stay_before a b =
        id_before a.room_id b.room_id
        || (a.room_id == b.room_id && null_before a.guest_in_at b.guest_in_at)

    -- `ORDER BY paid_at, payment_id`.
    abbrev pub payment_before : PaymentRow A → PaymentRow A → Bool
    payment_before a b =
        o.before a.paid_at b.paid_at
        || (not (o.before b.paid_at a.paid_at) && id_before a.payment_id b.payment_id)

    abbrev pub query_stays : String → String → Call A (List (StayRecord A))
    query_stays query parsing =
        and_then (call query (λ b. (sort_by stay_before b.conn.committed.stays, b)))
          λ rows. read_rows parsing (scan_stays rows)

    abbrev pub query_payments : String → String → Call A (List (PaymentRecord A))
    query_payments query parsing =
        and_then (call query (λ b. (sort_by payment_before b.conn.committed.payments, b)))
          λ rows. read_rows parsing (scan_payments rows)

    abbrev pub query_audits : String → String → Call A (List AuditRecord)
    query_audits query parsing =
        and_then (call query (λ b. (sort_by audit_before b.conn.committed.audit_events, b)))
          λ rows. read_rows parsing (scan_events rows)

    unfoldable pub list_stays_by_date : Location → Time → Call A (List (StayRecord A))
    list_stays_by_date loc day =
        picked (stay_matches_date loc day)
          (query_stays "list stays for export" "parse stay last_updated_at")

    unfoldable pub list_payments_by_date : Location → Time → Call A (List (PaymentRecord A))
    list_payments_by_date loc day =
        picked (λ item. same_local_date loc item.paid_at day)
          (query_payments "list payments for export" "parse payment paid_at")

    unfoldable pub list_audit_by_date : Location → Time → Call A (List AuditRecord)
    list_audit_by_date loc day =
        picked (λ item. same_local_date loc item.timestamp day)
          (query_audits "list audit for export" "parse export audit timestamp")

    unfoldable pub list_stays_by_date_range : Time → Time → Call A (List (StayRecord A))
    list_stays_by_date_range start end =
        picked (stay_matches_date_range start end)
          (query_stays "list stays in range" "parse stay range last_updated_at")

    unfoldable pub list_stays_by_month : Location → Time → Call A (List (StayRecord A))
    list_stays_by_month loc month =
        list_stays_by_date_range (month_start loc month) (month_end loc month)

    unfoldable pub list_payments_all : Call A (List (PaymentRecord A))
    list_payments_all = query_payments "list payments all" "parse payment all paid_at"

    unfoldable pub list_audit_all : Call A (List AuditRecord)
    list_audit_all = query_audits "list audit all" "parse audit all timestamp"

    unfoldable pub list_payments_by_month : Location → Time → Call A (List (PaymentRecord A))
    list_payments_by_month loc month =
        picked (λ item. same_local_month loc item.paid_at month) list_payments_all

    unfoldable pub list_audit_by_month : Location → Time → Call A (List AuditRecord)
    list_audit_by_month loc month =
        picked (λ item. same_local_month loc item.timestamp month) list_audit_all

    unfoldable pub daily_workbook_data : Location → Time → Call A (WorkbookData A)
    daily_workbook_data loc day =
        gathered (day_key (day_of loc day)) (list_stays_by_date loc day)
          (list_payments_by_date loc day) (list_audit_by_date loc day)

    unfoldable pub monthly_workbook_data : Location → Time → Call A (WorkbookData A)
    monthly_workbook_data loc month =
        gathered (month_key (month_of (day_of loc month))) (list_stays_by_month loc month)
          (list_payments_by_month loc month) (list_audit_by_month loc month)
