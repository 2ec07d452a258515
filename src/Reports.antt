-- ===== src/Reports.antt =====
-- The reports of go-backend/internal/store/store.go and go-backend/internal/reporting/exporter.go: the
-- calendar of a location, the tables of the reports, and the calls of the store outside a transaction.
pub mod Runs
pub mod Candidates
pub mod Listings
pub mod Settings
pub mod Dates
pub mod Sheets
pub mod Workbooks
pub mod Export
pub mod Calm
pub mod Activity
pub mod Pending
pub mod Schedule
pub mod Kept
pub mod Reading
pub mod Outcome
pub mod Exported
pub mod Works
pub mod Round
pub mod Found
pub mod Daemon
pub mod Once
pub mod Stored
pub mod Totals
use ccs2_plus.Prelude.{
  ℕ, suc, ◌+◌, ◌-◌, ◌*◌, ◌/◌, ◌%◌, ◌<◌, String, Bool, true, false, Option, none, some, List, [],
  ◌∷◌, ltb, eqb, if◌then◌else◌,
}
use ccs2_plus.Prelude.Int.{ℤ, pos_part, neg_part}
use ccs2_plus.Database.{
  Time, TimeText, second, StoreError, io, Result, ok, err, Conn, next_fault, drawn,
}

-- A `time.Location` with one offset in seconds throughout, as Asia/Bangkok, the default of the
-- configuration, has it.
pub record Location : Type 0 where
  pub name : String
  pub offset : ℤ
  pub fits : pos_part offset < 86_400

abbrev pub day_length : ℕ
day_length = 86_400_000_000_000

-- The number of the day that `t.In(loc)` falls on, from 1 January of year 1.
abbrev pub day_of : Location → Time → ℕ
day_of loc t = (t + pos_part loc.offset * second - neg_part loc.offset * second) / day_length

-- `time.Date(y, m, d, 0, minute, 0, 0, loc)` of a day.
abbrev pub time_on : Location → ℕ → ℕ → Time
time_on loc day minute =
    day * day_length
    + minute * (60 * second)
    + neg_part loc.offset * second
    - pos_part loc.offset * second

abbrev pub midnight : Location → ℕ → Time
midnight loc day = time_on loc day 0

-- The number of years of the Gregorian calendar, of those that start in March of year 0, before a day
-- that is numbered from 1 March of year 0.
abbrev march_year : ℕ → ℕ
march_year z =
    let era = z / 146_097 in
    let doe = z % 146_097 in era * 400 + (doe + doe / 36_524 - doe / 1460 - doe / 146_096) / 365

-- The day of the first of March of year `y`.
abbrev march_first : ℕ → ℕ
march_first y = 365 * y + y / 4 + y / 400 - y / 100

-- The number of the month of a day, from March of year 0.
unfoldable pub month_of : ℕ → ℕ
month_of day =
    let z = day + 306 in let y = march_year z in y * 12 + (5 * (z - march_first y) + 2) / 153

-- The first day of a month.
unfoldable pub first_of : ℕ → ℕ
first_of month = march_first (month / 12) + (153 * (month % 12) + 2) / 5 - 306

-- A `period_key`: what `Format("2006-01-02")` writes for a day, or `Format("2006-01")` for a month.
-- In years with four digits their order is that of the numbers.
pub data PeriodKey : Type 0 where
  day_key month_key : ℕ → PeriodKey

abbrev pub same_period : PeriodKey → PeriodKey → Bool
same_period (day_key a) (day_key b) = eqb a b
same_period (day_key a) (month_key b) = false
same_period (month_key a) (day_key b) = false
same_period (month_key a) (month_key b) = eqb a b

-- What `err.Error()` gives: the text of an error of the store, or of another part.
pub data ErrorText : Type 0 where
  text : String → ErrorText
  store_text : StoreError → ErrorText

pub record ReportRun : Type 0 where
  pub report_kind : String
  pub period_key : PeriodKey
  pub status : String
  pub local_path : String
  pub drive_file_id : String
  pub last_error : ErrorText
  pub uploaded_at : Option TimeText
  pub updated_at : TimeText

pub record ExportRun : Type 0 where
  pub export_date : PeriodKey
  pub status : String
  pub local_path : String
  pub drive_file_id : String
  pub last_error : ErrorText
  pub uploaded_at : Option TimeText
  pub updated_at : TimeText

-- `GoogleDriveConfig`.
pub record DriveConfig : Type 0 where
  pub credentials_path : String
  pub folder_id : String
  pub enabled : Bool
  pub updated_at : Time

-- A text of `app_settings`: what `json.Marshal` writes for a configuration, or some other text.
pub data SettingText : Type 0 where
  json_of : DriveConfig → SettingText
  plain : String → SettingText

pub record Setting : Type 0 where
  pub setting_key : String
  pub value : SettingText
  pub updated_at : TimeText

-- The tables of the rooms behind their connection, and those of the reports.
pub record Books (A : Type 0) : Type 0 where
  pub conn : Conn A
  pub report_runs : List ReportRun
  pub export_runs : List ExportRun
  pub app_settings : List Setting

abbrev pub Call : Type 0 → Type 0 → Type 0
Call A R = Books A → Result R × Books A

module _ {A : Type 0} where
  abbrev pub spent : Books A → Books A
  spent b = record b { conn = drawn b.conn }

  -- `s.db.Query` or `s.db.Exec` outside a transaction, with the error wrapped as the caller wraps it.
  unfoldable pub call : {R : Type 0} → String → (Books A → R × Books A) → Call A R
  call context sql b =
      if next_fault b.conn.faults
      then (err (record { context = context; cause = io }), spent b)
      else (ok (sql (spent b)).0, (sql (spent b)).1)

  -- An operation of the store that works on the connection alone.
  abbrev pub on_conn : {R : Type 0} → (Conn A → Result R × Conn A) → Call A R
  on_conn f b = let (r, c) = f b.conn in (r, record b { conn = c })

  abbrev pub after : {R S : Type 0} → (R → Call A S) → Result R × Books A → Result S × Books A
  after f (ok r, b) = f r b
  after f (err e, b) = (err e, b)

  -- A call whose error is returned at once.
  unfoldable pub and_then : {R S : Type 0} → Call A R → (R → Call A S) → Call A S
  and_then m f b = after f (m b)

  unfoldable pub returns : {R : Type 0} → R → Call A R
  returns r b = (ok r, b)
