-- ===== src/Reports/Export.antt =====
-- The exports of go-backend/internal/reporting/exporter.go: ExportDate, ExportMonth, uploader,
-- runPending and nextRunAt. What excelize, the Drive client and the file system do is a parameter.
use ccs2_plus.Prelude.{
  suc, String, append, Bool, not, ◌||◌, Option, none, some, List, [], ◌∷◌, ◌==◌, if◌then◌else◌,
}
use ccs2_plus.Prelude.Float.{Float64}
use ccs2_plus.Database.{Time, Collation, Result, ok, err}
use ccs2_plus.Reports.{
  Location, day_of, time_on, month_of, month_key, ErrorText, text, store_text, DriveConfig, Books,
  Call,
}
use ccs2_plus.Reports.Runs.{Mark, mark_report_run, mark_export_run}
use ccs2_plus.Reports.Candidates.{candidate_daily_export_dates, candidate_monthly_export_months}
use ccs2_plus.Reports.Listings.{WorkbookData, daily_workbook_data, monthly_workbook_data}
use ccs2_plus.Reports.Settings.{get_google_drive_config}
use ccs2_plus.Reports.Dates.{day_text, month_text}
use ccs2_plus.Reports.Sheets.{Sheet}
use ccs2_plus.Reports.Workbooks.{daily_sheets, monthly_sheets}

pub data Uploading : Type 0 where
  uploaded_as : String → Uploading
  upload_failed : String → Uploading

-- The parts outside, during one export: `os.MkdirAll`, the calls of excelize that write the sheets to
-- a path, `drive.NewService`, and the upload of a file under a name, each with its error if there is
-- one; what `e.clock()` gives after the upload, and `time.Now()` when the run is marked.
pub record Outside (A : Type 0) : Type 0 where
  pub make_dir : String → Option String
  pub save_as : String → List (Sheet A) → Option String
  pub connect : String → String → Option String
  pub upload : String → String → Uploading
  pub clock : Time
  pub marked_at : Time

-- `DailyExporter`, where `export_dir` is as `filepath.Join` leaves it, and whether there is an
-- uploader other than that of the settings.
pub record DailyExporter : Type 0 where
  pub export_dir : String
  pub location : Location
  pub static_uploader : Bool

-- The `error` that an export returns: the text before it, if any, and what it wraps.
pub data Ended : Type 0 where
  fine : Ended
  broke : String → ErrorText → Ended

-- The parts in which ExportDate and ExportMonth differ.
pub record Job (A : Type 0) : Type 0 where
  pub mark : Mark → Time → Call A Unit
  pub load : Call A (WorkbookData A)
  pub load_context : String
  pub write_context : String
  pub file_name : String
  pub sheets : WorkbookData A → List (Sheet A)

abbrev pub failed_mark : String → ErrorText → Mark
failed_mark path e = record {
  status = "failed";
  local_path = path;
  drive_file_id = "";
  last_error = e;
  uploaded_at = none;
}

abbrev pub local_mark : String → Mark
local_mark path = record {
  status = "exported_local";
  local_path = path;
  drive_file_id = "";
  last_error = text "";
  uploaded_at = none;
}

abbrev pub uploaded_mark : String → String → Time → Mark
uploaded_mark path id now = record {
  status = "uploaded";
  local_path = path;
  drive_file_id = id;
  last_error = text "";
  uploaded_at = some now;
}

-- What `e.uploader(ctx)` returns.
pub data Found : Type 0 where
  an_uploader : Found
  no_uploader : Found
  not_found : ErrorText → Found

abbrev pub connected : Option String → Found
connected none = an_uploader
connected (some e) = not_found (text e)

abbrev pub daily_exporter_path : DailyExporter → String → String
daily_exporter_path e name = append e.export_dir (append "/" name)

module _ {A : Type 0} where
  -- `_ = e.store.Mark…(…)`, and then the return of an error.
  abbrev pub marked_then : Call A Unit → Ended → Books A → Ended × Books A
  marked_then mark e b = (e, (mark b).1)

  abbrev pub finished : Result Unit × Books A → Ended × Books A
  finished (ok r, b) = (fine, b)
  finished (err e, b) = (broke "" (store_text e), b)

  abbrev pub configured : Outside A → Result DriveConfig × Books A → Found × Books A
  configured out (err e, b) = (not_found (store_text e), b)
  configured out (ok cfg, b) =
      if not cfg.enabled || cfg.credentials_path == "" || cfg.folder_id == ""
      then (no_uploader, b)
      else (connected (out.connect cfg.credentials_path cfg.folder_id), b)

  unfoldable pub uploader : DailyExporter → Outside A → Books A → Found × Books A
  uploader e out b =
      if e.static_uploader then (an_uploader, b) else configured out (get_google_drive_config b)

  module _ (e : DailyExporter) (job : Job A) (out : Outside A) where
    abbrev pub path_of : String
    path_of = daily_exporter_path e job.file_name

    abbrev pub sent : Uploading → Books A → Ended × Books A
    sent (upload_failed x) =
        marked_then (job.mark (failed_mark path_of (text x)) out.marked_at) (broke "" (text x))
    sent (uploaded_as id) =
        λ b. finished (job.mark (uploaded_mark path_of id out.clock) out.marked_at b)

    abbrev pub upload_by : Found × Books A → Ended × Books A
    upload_by (not_found x, b) =
        marked_then (job.mark (failed_mark path_of x) out.marked_at) (broke "" x) b
    upload_by (no_uploader, b) = finished (job.mark (local_mark path_of) out.marked_at b)
    upload_by (an_uploader, b) = sent (out.upload path_of job.file_name) b

    abbrev pub written : Option String → Books A → Ended × Books A
    written (some x) b =
        marked_then (job.mark (failed_mark path_of (text x)) out.marked_at)
          (broke job.write_context (text x)) b
    written none b = upload_by (uploader e out b)

    abbrev pub loaded : Result (WorkbookData A) × Books A → Ended × Books A
    loaded (err x, b) =
        marked_then (job.mark (failed_mark "" (store_text x)) out.marked_at)
          (broke job.load_context (store_text x)) b
    loaded (ok book, b) = written (out.save_as path_of (job.sheets book)) b

    abbrev pub in_dir : Option String → Books A → Ended × Books A
    in_dir (some x) b = (broke "create export directory" (text x), b)
    in_dir none b = loaded (job.load b)

    unfoldable pub export : Books A → Ended × Books A
    export b = in_dir (out.make_dir e.export_dir) b

  module _ ⦃f : Float64 A⦄ ⦃o : Collation⦄ where
    abbrev pub daily_job : DailyExporter → Time → Job A
    daily_job e day = record {
      mark = mark_export_run e.location day;
      load = daily_workbook_data e.location day;
      load_context = "load daily workbook data";
      write_context = "write workbook";
      file_name = append "ccs2plus-daily-" (append (day_text (day_of e.location day)) ".xlsx");
      sheets = daily_sheets e.location;
    }

    abbrev pub monthly_job : DailyExporter → Time → Job A
    monthly_job e month = record {
      mark = mark_report_run "monthly" (month_key (month_of (day_of e.location month)));
      load = monthly_workbook_data e.location month;
      load_context = "load monthly workbook data";
      write_context = "write monthly workbook";
      file_name =
          append "ccs2plus-monthly-"
            (append (month_text (month_of (day_of e.location month))) ".xlsx");
      sheets = monthly_sheets e.location;
    }

    unfoldable pub export_date : DailyExporter → Time → Outside A → Books A → Ended × Books A
    export_date e day out = export e (daily_job e day) out

    unfoldable pub export_month : DailyExporter → Time → Outside A → Books A → Ended × Books A
    export_month e month out = export e (monthly_job e month) out

    -- The loop over the days; the error of one is logged.
    unfoldable pub export_dates : DailyExporter → (Time → Outside A) → List Time → Books A → Books A
    export_dates e outside [] b = b
    export_dates e outside (day ∷ days) b =
        export_dates e outside days (export_date e day (outside day) b).1

    unfoldable pub export_months :
        DailyExporter → (Time → Outside A) → List Time → Books A → Books A
    export_months e outside [] b = b
    export_months e outside (month ∷ months) b =
        export_months e outside months (export_month e month (outside month) b).1

    abbrev pub dates_found :
        DailyExporter → (Time → Outside A) → Result (List Time) × Books A → Books A
    dates_found e outside (err x, b) = b
    dates_found e outside (ok days, b) = export_dates e outside days b

    abbrev pub months_found :
        DailyExporter → (Time → Outside A) → Result (List Time) × Books A → Books A
    months_found e outside (err x, b) = b
    months_found e outside (ok months, b) = export_months e outside months b

    -- The two readings of the clock, and the parts outside for each day and for each month.
    unfoldable pub run_pending :
        DailyExporter → Time → Time → (Time → Outside A) → (Time → Outside A) → Books A → Books A
    run_pending e now later daily monthly b =
        let days = dates_found e daily (candidate_daily_export_dates now e.location b) in
        months_found e monthly (candidate_monthly_export_months later e.location days)

-- The next day at ten minutes past midnight, in the location.
unfoldable pub next_run_at : Time → Location → Time
next_run_at now loc = time_on loc (suc (day_of loc now)) 10
