-- ===== src/Reports/Workbooks.antt =====
-- The sheets with one row for each record, and the two workbooks, of
-- go-backend/internal/reporting/exporter.go.
use ccs2_plus.Prelude.{List, [], ◌∷◌, map}
use ccs2_plus.Prelude.Float.{Float64}
use ccs2_plus.Database.{format}
use ccs2_plus.Database.Reads.{RoomRecord, AuditRecord}
use ccs2_plus.Reports.{Location}
use ccs2_plus.Reports.Listings.{StayRecord, PaymentRecord, WorkbookData}
use ccs2_plus.Reports.Sheets.{
  Cell, cell_text, cell_int, cell_amount, cell_flag, cell_time, Sheet, headings, write_rows,
  format_time, summary_sheet, monthly_summary_sheet, payment_method_sheet, monthly_stay_mode_sheet,
  top_rooms_sheet, monthly_daily_summary_sheet,
}

module _ {A : Type 0} where
  abbrev stay_row : StayRecord A → List (Cell A)
  stay_row item =
      cell_text item.stay_id
      ∷ cell_text item.request_id
      ∷ cell_text item.room_id
      ∷ cell_text item.stay_mode
      ∷ cell_text item.case_code
      ∷ cell_text item.status
      ∷ format_time item.guest_in_at
      ∷ format_time item.guest_out_at
      ∷ format_time item.clean_up_at
      ∷ cell_int item.allocated_minutes
      ∷ cell_int item.used_minutes
      ∷ cell_amount item.payment_amount
      ∷ cell_text item.payment_ref
      ∷ cell_text item.remark
      ∷ cell_time (format item.last_updated_at)
      ∷ []

  abbrev payment_row : PaymentRecord A → List (Cell A)
  payment_row item =
      cell_text item.payment_id
      ∷ cell_text item.request_id
      ∷ cell_text item.stay_id
      ∷ cell_text item.room_id
      ∷ cell_amount item.amount
      ∷ cell_text item.method
      ∷ cell_text item.reference
      ∷ cell_time (format item.paid_at)
      ∷ []

  abbrev audit_row : AuditRecord → List (Cell A)
  audit_row item =
      cell_text item.id
      ∷ cell_time (format item.timestamp)
      ∷ cell_text item.room_id
      ∷ cell_text item.action
      ∷ cell_text item.actor
      ∷ cell_text item.result
      ∷ cell_text item.stay_mode
      ∷ cell_text item.case_code
      ∷ cell_text item.detail
      ∷ []

  abbrev room_row : RoomRecord A → List (Cell A)
  room_row item =
      cell_text item.room_id
      ∷ cell_int item.floor
      ∷ cell_text item.status
      ∷ cell_text item.stay_mode
      ∷ cell_text item.case_code
      ∷ cell_flag item.controller_online
      ∷ cell_int item.remaining_minutes
      ∷ cell_amount item.last_payment_amount
      ∷ cell_text item.last_payment_method
      ∷ cell_text item.last_payment_ref
      ∷ cell_time (format item.updated_at)
      ∷ []

  unfoldable pub stays_sheet : WorkbookData A → Sheet A
  stays_sheet book = write_rows "Stays" (
      headings (
        "รหัสเข้าพัก" ∷ "รหัสคำขอ" ∷ "ห้อง" ∷ "ประเภทการเข้าพัก" ∷ "เคส" ∷ "สถานะ" ∷ "เวลาเข้า"
        ∷ "เวลาออก" ∷ "เวลาทำความสะอาดเสร็จ" ∷ "นาทีที่กำหนด" ∷ "นาทีใช้งาน" ∷ "ยอดรับชำระ"
        ∷ "เลขอ้างอิงชำระเงิน" ∷ "หมายเหตุ" ∷ "อัปเดตล่าสุด" ∷ [])
      ∷ map stay_row book.stays)

  unfoldable pub payments_sheet : WorkbookData A → Sheet A
  payments_sheet book = write_rows "Payments" (
      headings (
        "รหัสชำระเงิน" ∷ "รหัสคำขอ" ∷ "รหัสเข้าพัก" ∷ "ห้อง" ∷ "ยอดชำระ" ∷ "วิธีชำระเงิน"
        ∷ "เลขอ้างอิง" ∷ "เวลาชำระ" ∷ [])
      ∷ map payment_row book.payments)

  unfoldable pub audit_sheet : WorkbookData A → Sheet A
  audit_sheet book = write_rows "Audit" (
      headings (
        "รหัสเหตุการณ์" ∷ "เวลา" ∷ "ห้อง" ∷ "การทำรายการ" ∷ "ผู้ทำรายการ" ∷ "ผลลัพธ์"
        ∷ "ประเภทการเข้าพัก" ∷ "เคส" ∷ "รายละเอียด" ∷ [])
      ∷ map audit_row book.audits)

  unfoldable pub rooms_sheet : WorkbookData A → Sheet A
  rooms_sheet book = write_rows "Rooms" (
      headings (
        "ห้อง" ∷ "ชั้น" ∷ "สถานะ" ∷ "ประเภทการเข้าพัก" ∷ "เคส" ∷ "คอนโทรลเลอร์ออนไลน์"
        ∷ "นาทีคงเหลือ" ∷ "ยอดชำระล่าสุด" ∷ "วิธีชำระล่าสุด" ∷ "เลขอ้างอิงล่าสุด" ∷ "อัปเดตล่าสุด"
        ∷ [])
      ∷ map room_row book.rooms)

  module _ ⦃f : Float64 A⦄ where
    -- `writeWorkbook`, less the calls that save the file.
    unfoldable pub daily_sheets : Location → WorkbookData A → List (Sheet A)
    daily_sheets loc book =
        summary_sheet loc book
        ∷ payment_method_sheet book.payments
        ∷ top_rooms_sheet book.stays
        ∷ stays_sheet book
        ∷ payments_sheet book
        ∷ audit_sheet book
        ∷ rooms_sheet book
        ∷ []

    -- `writeMonthlyWorkbook`, likewise.
    unfoldable pub monthly_sheets : Location → WorkbookData A → List (Sheet A)
    monthly_sheets loc book =
        monthly_summary_sheet loc book
        ∷ monthly_daily_summary_sheet loc book
        ∷ monthly_stay_mode_sheet book.stays
        ∷ payment_method_sheet book.payments
        ∷ top_rooms_sheet book.stays
        ∷ stays_sheet book
        ∷ payments_sheet book
        ∷ audit_sheet book
        ∷ rooms_sheet book
        ∷ []
