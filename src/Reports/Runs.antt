-- ===== src/Reports/Runs.antt =====
-- MarkReportRun, MarkExportRun and successfulReportPeriods of go-backend/internal/store/store.go.
use ccs2_plus.Prelude.{
  String, Bool, ◌&&◌, ◌||◌, Option, none, some, List, [], ◌∷◌, ◌==◌, if◌then◌else◌, false,
}
use ccs2_plus.Database.{Time, TimeText, format}
use ccs2_plus.Reports.{
  Location, day_of, PeriodKey, day_key, same_period, ErrorText, ReportRun, ExportRun, Call, call,
  and_then,
}

-- `formatNullableTime`.
abbrev pub format_nullable_time : Option Time → Option TimeText
format_nullable_time none = none
format_nullable_time (some t) = some (format t)

abbrev pub same_run : ReportRun → ReportRun → Bool
same_run a b = a.report_kind == b.report_kind && same_period a.period_key b.period_key

-- `INSERT … ON CONFLICT(report_kind, period_key) DO UPDATE`, where every other column is set.
unfoldable pub upsert_report : ReportRun → List ReportRun → List ReportRun
upsert_report run [] = run ∷ []
upsert_report run (r ∷ runs) =
    let rest = upsert_report run runs in if same_run r run then run ∷ runs else r ∷ rest

unfoldable pub upsert_export : ExportRun → List ExportRun → List ExportRun
upsert_export run [] = run ∷ []
upsert_export run (r ∷ runs) =
    let rest = upsert_export run runs in
    if same_period r.export_date run.export_date then run ∷ runs else r ∷ rest

-- What a run came to: the arguments of MarkReportRun from `status` on.
pub record Mark : Type 0 where
  pub status : String
  pub local_path : String
  pub drive_file_id : String
  pub last_error : ErrorText
  pub uploaded_at : Option Time

abbrev pub report_run : String → PeriodKey → Mark → Time → ReportRun
report_run kind period m now = record {
  report_kind = kind;
  period_key = period;
  status = m.status;
  local_path = m.local_path;
  drive_file_id = m.drive_file_id;
  last_error = m.last_error;
  uploaded_at = format_nullable_time m.uploaded_at;
  updated_at = format now;
}

abbrev pub export_run : PeriodKey → Mark → Time → ExportRun
export_run date m now = record {
  export_date = date;
  status = m.status;
  local_path = m.local_path;
  drive_file_id = m.drive_file_id;
  last_error = m.last_error;
  uploaded_at = format_nullable_time m.uploaded_at;
  updated_at = format now;
}

unfoldable pub has_period : PeriodKey → List PeriodKey → Bool
has_period key [] = false
has_period key (k ∷ keys) = same_period k key || has_period key keys

-- `SELECT period_key FROM report_runs WHERE report_kind = ? AND status = 'uploaded'`.
unfoldable pub uploaded_periods : String → List ReportRun → List PeriodKey
uploaded_periods kind [] = []
uploaded_periods kind (r ∷ runs) =
    let rest = uploaded_periods kind runs in
    if r.report_kind == kind && r.status == "uploaded" then r.period_key ∷ rest else rest

module _ {A : Type 0} where
  unfoldable pub mark_report_run : String → PeriodKey → Mark → Time → Call A Unit
  mark_report_run kind period m now = call "mark report run" (λ b.
      (tt, record b { report_runs = upsert_report (report_run kind period m now) b.report_runs }))

  -- Two statements, which no transaction joins.
  unfoldable pub mark_export_run : Location → Time → Mark → Time → Call A Unit
  mark_export_run loc day m now =
      and_then (mark_report_run "daily" (day_key (day_of loc day)) m now) (λ _.
        call "mark export run" (λ b. (
          tt,
          record b {
            export_runs = upsert_export (export_run (day_key (day_of loc day)) m now) b.export_runs;
          },
        )))

  unfoldable pub successful_report_periods : String → Call A (List PeriodKey)
  successful_report_periods kind =
      call "list successful report periods" (λ b. (uploaded_periods kind b.report_runs, b))
