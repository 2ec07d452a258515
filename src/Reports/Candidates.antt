-- ===== src/Reports/Candidates.antt =====
-- CandidateDailyExportDates and CandidateMonthlyExportMonths of go-backend/internal/store/store.go.
use ccs2_plus.Prelude.{
  ℕ, not, Option, none, some, List, [], ◌∷◌, ◌++◌, map, leb, if◌then◌else◌, keep,
}
use ccs2_plus.Prelude.Ascending.{note, ascending}
use ccs2_plus.Database.{Time, TimeText, parse, is_blank_text, Db}
use ccs2_plus.Reports.{
  Location, day_of, midnight, month_of, first_of, PeriodKey, day_key, month_key, Call, call,
  and_then, returns,
}
use ccs2_plus.Reports.Runs.{has_period, successful_report_periods}

-- A time column of `stays`, `WHERE … IS NOT NULL`.
unfoldable pub present : {R : Type 0} → (R → Option TimeText) → List R → List TimeText
present column [] = []
present column (row ∷ rows) = elim (column row) [
  | none ↦ present column rows
  | some t ↦ t ∷ present column rows
]

-- The loop over the texts: a day before `cutoff` that has no report yet is noted once.
abbrev pub note_day : Location → ℕ → List PeriodKey → Option Time → List ℕ → List ℕ
note_day loc cutoff successful none seen = seen
note_day loc cutoff successful (some t) seen =
    if leb cutoff (day_of loc t)
    then seen
    else if has_period (day_key (day_of loc t)) successful
    then seen
    else note (day_of loc t) seen

unfoldable pub noted_days : Location → ℕ → List PeriodKey → List TimeText → List ℕ
noted_days loc cutoff successful [] = []
noted_days loc cutoff successful (text ∷ texts) =
    note_day loc cutoff successful (parse text) (noted_days loc cutoff successful texts)

abbrev pub note_month : ℕ → List PeriodKey → ℕ → List ℕ → List ℕ
note_month current successful month seen =
    if leb current month
    then seen
    else if has_period (month_key month) successful
    then seen
    else note month seen

unfoldable pub noted_months : Location → ℕ → List PeriodKey → List Time → List ℕ
noted_months loc current successful [] = []
noted_months loc current successful (day ∷ days) =
    note_month current successful (month_of (day_of loc day))
      (noted_months loc current successful days)

module _ {A : Type 0} where
  -- One of the five queries, less the blank texts.
  unfoldable pub query_times : (Db A → List TimeText) → Call A (List TimeText)
  query_times column =
      call "query export candidates"
        (λ b. (keep (λ text. not (is_blank_text text)) (column b.conn.committed), b))

  unfoldable pub query_sources : List (Db A → List TimeText) → Call A (List TimeText)
  query_sources [] = returns []
  query_sources (column ∷ columns) =
      and_then (query_times column)
        λ texts. and_then (query_sources columns) λ rest. returns (texts ++ rest)

  abbrev pub sources : List (Db A → List TimeText)
  sources =
      (λ db. present (λ row. row.guest_in_at) db.stays)
      ∷ (λ db. present (λ row. row.guest_out_at) db.stays)
      ∷ (λ db. present (λ row. row.clean_up_at) db.stays)
      ∷ (λ db. map (λ row. row.paid_at) db.payments)
      ∷ (λ db. map (λ row. row.event_time) db.audit_events)
      ∷ []

  unfoldable pub candidate_daily_export_dates : Time → Location → Call A (List Time)
  candidate_daily_export_dates now loc = and_then (query_sources sources) λ texts.
      and_then (successful_report_periods "daily") λ successful.
        returns (map (midnight loc) (ascending (noted_days loc (day_of loc now) successful texts)))

  unfoldable pub candidate_monthly_export_months : Time → Location → Call A (List Time)
  candidate_monthly_export_months now loc = and_then (candidate_daily_export_dates now loc) λ days.
      and_then (successful_report_periods "monthly") λ successful. returns (
        map (λ month. midnight loc (first_of month))
          (ascending (noted_months loc (month_of (day_of loc now)) successful days)))
