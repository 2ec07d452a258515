-- ===== src/Reports/Sheets.antt =====
-- The workbooks of go-backend/internal/reporting/exporter.go: the rows of every sheet. A time in a
-- cell is the text that `Format(time.RFC3339)` writes for it in the location.
use ccs2_plus.Prelude.{
  ℕ, ◌+◌, String, Bool, ◌&&◌, Option, none, some, List, [], ◌∷◌, map, length, ltb, leb, eqb, ◌==◌,
  if◌then◌else◌, max,
}
use ccs2_plus.Prelude.Int.{ℤ, pos, wrap, ◌+ℤ◌}
use ccs2_plus.Prelude.Float.{Float64}
use ccs2_plus.Prelude.Table.{Table, lookup, insert}
use ccs2_plus.Database.{Time, TimeText, format}
use ccs2_plus.Database.Statements.{id_before}
use ccs2_plus.Database.Reads.{AuditRecord}
use ccs2_plus.Reports.{Location, day_of}
use ccs2_plus.Reports.Dates.{day_text, period_text}
use ccs2_plus.Reports.Listings.{StayRecord, PaymentRecord, WorkbookData, sort_by}

pub data Cell (A : Type 0) : Type 0 where
  cell_text : String → Cell A
  cell_count : ℕ → Cell A
  cell_int : ℤ → Cell A
  cell_amount : A → Cell A
  cell_flag : Bool → Cell A
  cell_time : TimeText → Cell A

pub data Style : Type 0 where
  title header bare : Style

pub record Sheet (A : Type 0) : Type 0 where
  pub name : String
  pub rows : List (List (Cell A))
  pub columns : ℕ
  pub style : Style

pub record Totals (A : Type 0) : Type 0 where
  pub count : ℕ
  pub amount : A

pub record RoomTotals (A : Type 0) : Type 0 where
  pub count : ℕ
  pub amount : A
  pub minutes : ℤ

pub record DayTotals (A : Type 0) : Type 0 where
  pub stays : ℕ
  pub pays : ℕ
  pub amount : A
  pub audits : ℕ

module _ {T : Type 0} where
  abbrev pub value_or : T → Option T → T
  value_or zero none = zero
  value_or zero (some t) = t

  -- The loops over the items with a map of totals: `byKey[key]` starts as the empty totals.
  unfoldable pub tally : {R : Type 0} → (R → String) → (R → T → T) → T → List R → Table T → Table T
  tally key bump zero [] table = table
  tally key bump zero (item ∷ items) table =
      tally key bump zero items
        (insert (key item) (bump item (value_or zero (lookup (key item) table))) table)

  -- `sort.Strings` of the keys, each with its totals.
  unfoldable pub by_key : Table T → Table T
  by_key table = sort_by (λ a b. id_before a.0 b.0) table

abbrev pub day_key_of : Location → Time → String
day_key_of loc t = day_text (day_of loc t)

abbrev pub or_else : String → String → String
or_else fallback text = if text == "" then fallback else text

module _ {A : Type 0} where
  -- `columnCount`.
  unfoldable pub column_count : List (List (Cell A)) → ℕ
  column_count [] = 0
  column_count (row ∷ rows) = max (length row) (column_count rows)

  -- `styleSheet`: a single cell above other rows is a title, any other first row is a header.
  abbrev pub sheet_style : List (List (Cell A)) → Style
  sheet_style [] = bare
  sheet_style (row ∷ rows) =
      if leb (column_count (row ∷ rows)) 0
      then bare
      else if eqb (length row) 1 && ltb 0 (length rows)
      then title
      else header

  -- `writeRows`.
  unfoldable pub write_rows : String → List (List (Cell A)) → Sheet A
  write_rows name rows = record {
    name = name;
    rows = rows;
    columns = column_count rows;
    style = sheet_style rows;
  }

  abbrev pub headings : List String → List (Cell A)
  headings names = map cell_text names

  -- `formatTime`.
  abbrev pub format_time : Option Time → Cell A
  format_time none = cell_text ""
  format_time (some t) = cell_time (format t)

module _ {A : Type 0} ⦃f : Float64 A⦄ where
  open f use {nought, add}

  -- `totalPayment`.
  unfoldable pub total_payment : A → List (PaymentRecord A) → A
  total_payment sum [] = sum
  total_payment sum (item ∷ items) = total_payment (add sum item.amount) items

  abbrev summary_rows : String → String → Location → WorkbookData A → List (List (Cell A))
  summary_rows caption period loc book =
      (cell_text caption ∷ [])
      ∷ (cell_text period ∷ cell_text (period_text book.period) ∷ [])
      ∷ (cell_text "เขตเวลา" ∷ cell_text loc.name ∷ [])
      ∷ (cell_text "จำนวนรายการเข้าพัก" ∷ cell_count (length book.stays) ∷ [])
      ∷ (cell_text "จำนวนรายการชำระเงิน" ∷ cell_count (length book.payments) ∷ [])
      ∷ (cell_text "ยอดรับชำระรวม" ∷ cell_amount (total_payment nought book.payments) ∷ [])
      ∷ (cell_text "จำนวนเหตุการณ์ตรวจสอบ" ∷ cell_count (length book.audits) ∷ [])
      ∷ (cell_text "จำนวนห้องในระบบ" ∷ cell_count (length book.rooms) ∷ [])
      ∷ []

  unfoldable pub summary_sheet : Location → WorkbookData A → Sheet A
  summary_sheet loc book =
      write_rows "Summary" (summary_rows "รายงานการใช้ห้องพักประจำวัน" "วันที่" loc book)

  unfoldable pub monthly_summary_sheet : Location → WorkbookData A → Sheet A
  monthly_summary_sheet loc book =
      write_rows "Summary" (summary_rows "รายงานการใช้ห้องพักประจำเดือน" "เดือน" loc book)

  abbrev pub no_totals : Totals A
  no_totals = record { count = 0; amount = nought }

  abbrev pub counted : A → Totals A → Totals A
  counted amount t = record { count = t.count + 1; amount = add t.amount amount }

  abbrev totals_row : String × Totals A → List (Cell A)
  totals_row (key, t) = cell_text key ∷ cell_count t.count ∷ cell_amount t.amount ∷ []

  unfoldable pub payments_by_method : List (PaymentRecord A) → Table (Totals A)
  payments_by_method payments =
      tally (λ item. or_else "ไม่ระบุ" item.method) (λ item. counted item.amount) no_totals payments
        []

  unfoldable pub payment_method_sheet : List (PaymentRecord A) → Sheet A
  payment_method_sheet payments = write_rows "PaymentByMethod" (
      headings ("วิธีชำระเงิน" ∷ "จำนวนรายการ" ∷ "ยอดรับชำระรวม" ∷ [])
      ∷ map totals_row (by_key (payments_by_method payments)))

  unfoldable pub stays_by_mode : List (StayRecord A) → Table (Totals A)
  stays_by_mode stays =
      tally (λ item. or_else "unknown" item.stay_mode) (λ item. counted item.payment_amount)
        no_totals stays []

  unfoldable pub monthly_stay_mode_sheet : List (StayRecord A) → Sheet A
  monthly_stay_mode_sheet stays = write_rows "StayModeSummary" (
      headings ("ประเภทการเข้าพัก" ∷ "จำนวนเข้าพัก" ∷ "ยอดรับชำระรวม" ∷ [])
      ∷ map totals_row (by_key (stays_by_mode stays)))

  abbrev pub no_room_totals : RoomTotals A
  no_room_totals = record { count = 0; amount = nought; minutes = pos 0 }

  abbrev pub room_counted : StayRecord A → RoomTotals A → RoomTotals A
  room_counted item t = record {
    count = t.count + 1;
    amount = add t.amount item.payment_amount;
    minutes = wrap (t.minutes +ℤ item.used_minutes);
  }

  unfoldable pub stays_by_room : List (StayRecord A) → Table (RoomTotals A)
  stays_by_room stays =
      tally (λ item. or_else "ไม่ระบุ" item.room_id) room_counted no_room_totals stays []

  -- `sort.Slice`: the rooms that were used most come first, and those of one count by their ids.
  abbrev pub busier : String × RoomTotals A → String × RoomTotals A → Bool
  busier (k, left) (j, right) =
      if eqb left.count right.count then id_before k j else ltb right.count left.count

  unfoldable pub top_rooms : List (StayRecord A) → Table (RoomTotals A)
  top_rooms stays = sort_by busier (stays_by_room stays)

  unfoldable pub ranked : ℕ → Table (RoomTotals A) → List (List (Cell A))
  ranked n [] = []
  ranked n ((key, t) ∷ rooms) =
      (cell_count n
        ∷ cell_text key
        ∷ cell_count t.count
        ∷ cell_int t.minutes
        ∷ cell_amount t.amount
        ∷ [])
      ∷ ranked (n + 1) rooms

  unfoldable pub top_rooms_sheet : List (StayRecord A) → Sheet A
  top_rooms_sheet stays = write_rows "TopRooms" (
      headings ("ลำดับ" ∷ "ห้อง" ∷ "จำนวนครั้งใช้งาน" ∷ "นาทีใช้งานรวม" ∷ "ยอดรับชำระรวม" ∷ [])
      ∷ ranked 1 (top_rooms stays))

  abbrev pub no_day_totals : DayTotals A
  no_day_totals = record { stays = 0; pays = 0; amount = nought; audits = 0 }

  -- The first time that a stay has, which decides the day that it counts for.
  abbrev pub first_time : StayRecord A → Time
  first_time item =
      value_or (value_or (value_or item.last_updated_at item.clean_up_at) item.guest_out_at)
        item.guest_in_at

  unfoldable pub by_day : Location → WorkbookData A → Table (DayTotals A)
  by_day loc book =
      let stays =
        tally (λ item. day_key_of loc (first_time item))
          (λ (item : StayRecord A). λ t. record t { stays = t.stays + 1 }) no_day_totals book.stays
          [] in
      let pays =
        tally (λ item. day_key_of loc item.paid_at)
          (λ (item : PaymentRecord A).
            λ t. record t { pays = t.pays + 1; amount = add t.amount item.amount })
          no_day_totals book.payments stays in
      tally (λ item. day_key_of loc item.timestamp)
        (λ (item : AuditRecord). λ t. record t { audits = t.audits + 1 }) no_day_totals book.audits
        pays

  abbrev day_row : String × DayTotals A → List (Cell A)
  day_row (key, t) =
      cell_text key
      ∷ cell_count t.stays
      ∷ cell_count t.pays
      ∷ cell_amount t.amount
      ∷ cell_count t.audits
      ∷ []

  unfoldable pub monthly_daily_summary_sheet : Location → WorkbookData A → Sheet A
  monthly_daily_summary_sheet loc book = write_rows "DailySummary" (
      headings
        ("วันที่" ∷ "จำนวนเข้าพัก" ∷ "จำนวนชำระเงิน" ∷ "ยอดรับชำระรวม" ∷ "จำนวนเหตุการณ์" ∷ [])
      ∷ map day_row (by_key (by_day loc book)))
