-- ===== src/Reports/Exported.antt =====
-- What one export leaves behind, whatever fails in it.
use ccs2_plus.Prelude.{
  ◌≡◌, refl, ◌∙◌, ◌⊎◌, inl, inr, String, Bool, true, false, Option, none, some, ◌==◌, ◌||◌, not,
  if◌then◌else◌,
}
use ccs2_plus.Prelude.Float.{Float64}
use ccs2_plus.Database.{Time, Collation, Result, ok, err}
use ccs2_plus.Reports.{
  day_of, month_of, PeriodKey, day_key, month_key, ErrorText, store_text, Books, DriveConfig,
}
use ccs2_plus.Reports.Runs.{Mark, report_run, upsert_report}
use ccs2_plus.Reports.Listings.{WorkbookData}
use ccs2_plus.Reports.Settings.{get_google_drive_config}
use ccs2_plus.Reports.Export.{
  Uploading, uploaded_as, upload_failed, Outside, DailyExporter, Ended, fine, broke, Job,
  failed_mark, local_mark, uploaded_mark, Found, an_uploader, no_uploader, not_found, connected,
  marked_then, finished, configured, uploader, path_of, sent, upload_by, written, loaded, in_dir,
  export, daily_job, monthly_job, export_date, export_month,
}
use ccs2_plus.Reports.Reading.{
  SameBooks, Reads, get_google_drive_config-Reads, daily_workbook_data-Reads,
  monthly_workbook_data-Reads,
}
use ccs2_plus.Reports.Outcome.{
  is_fine, SameTables, SameTables-trans, SameRuns, Exporting, of_day, of_month, Reads-SameTables,
  Marking, Marks, mark_report_run-Marks, mark_export_run-Marks,
}

module _ {A : Type 0} where
  configured-Reads :
      (out : Outside A) (b : Books A) (p : Result DriveConfig × Books A)
      → SameBooks b p.1
      → SameBooks b (configured out p).1
  configured-Reads out b (err x, c) s = s
  configured-Reads out b (ok cfg, c) s =
      by_test (not cfg.enabled || cfg.credentials_path == "" || cfg.folder_id == "")
    where
      by_test :
          (x : Bool)
          → SameBooks b
              (if◌then◌else◌ {A = Found × Books A} x
                (no_uploader, c)
                (connected (out.connect cfg.credentials_path cfg.folder_id), c)).1
      by_test true = s
      by_test false = s

  uploader-Reads :
      (e : DailyExporter) (out : Outside A) (b : Books A) → SameBooks b (uploader e out b).1
  unfolding uploader
  uploader-Reads e out b = by_test e.static_uploader
    where
      by_test :
          (x : Bool)
          → SameBooks b
              (if◌then◌else◌ {A = Found × Books A} x
                (an_uploader, b)
                (configured out (get_google_drive_config b))).1
      by_test true = (b.conn.faults, refl)
      by_test false =
          configured-Reads out b (get_google_drive_config b) (get_google_drive_config-Reads b)

  -- A workbook of what was read was written to its path.
  abbrev pub Saved : DailyExporter → Job A → Outside A → Books A → Type 0
  Saved e job out b =
      (book : WorkbookData A) × ((job.load b).0 ≡ ok book)
      × (out.save_as (path_of e job out) (job.sheets book) ≡ none)

  -- What becomes of the rows of `export_runs`: an export that ends well has written its row, and one
  -- that fails has written it or none.
  abbrev pub Noted : Exporting → Mark → Outside A → Books A → Ended × Books A → Type 0
  Noted exporting m out b p =
      (p.1.export_runs ≡ exporting m out.marked_at b.export_runs)
      ⊎ ((p.1.export_runs ≡ b.export_runs) × (is_fine p.0 ≡ false))

  -- How the rows of the runs can come out. Only a row that says `uploaded` needs an upload.
  pub data Written (kind : String) (key : PeriodKey) (exporting : Exporting) (e : DailyExporter)
      (job : Job A) (out : Outside A) (b : Books A) (p : Ended × Books A) : Type 0 where
    unmarked : is_fine p.0 ≡ false → SameRuns b p.1 → Written kind key exporting e job out b p
    marked_failed :
        (path : String) (x : ErrorText)
        → is_fine p.0 ≡ false
        → p.1.report_runs
          ≡ upsert_report (report_run kind key (failed_mark path x) out.marked_at) b.report_runs
        → Noted exporting (failed_mark path x) out b p
        → Written kind key exporting e job out b p
    marked_local :
        Saved e job out b
        → p.1.report_runs
          ≡ upsert_report
              (report_run kind key (local_mark (path_of e job out)) out.marked_at)
              b.report_runs
        → Noted exporting (local_mark (path_of e job out)) out b p
        → Written kind key exporting e job out b p
    marked_uploaded :
        Saved e job out b
        → (id : String) → out.upload (path_of e job out) job.file_name ≡ uploaded_as id
        → p.1.report_runs
          ≡ upsert_report
              (report_run kind key (uploaded_mark (path_of e job out) id out.clock) out.marked_at)
              b.report_runs
        → Noted exporting (uploaded_mark (path_of e job out) id out.clock) out b p
        → Written kind key exporting e job out b p

  pub record Exported (kind : String) (key : PeriodKey) (exporting : Exporting) (e : DailyExporter)
      (job : Job A) (out : Outside A) (b : Books A) (p : Ended × Books A) : Type 0 where
    pub tables : SameTables b p.1
    pub runs : Written kind key exporting e job out b p

  module _ (kind : String) (key : PeriodKey) (exporting : Exporting) (e : DailyExporter)
      (job : Job A) (out : Outside A) (marks : Marks kind key exporting job.mark) where
    -- The books `c` at a point of the export have the tables of `b`, where it started.
    abbrev At : Books A → Books A → Type 0
    At b c = SameTables b c × SameRuns b c

    At-trans : (b c d : Books A) → At b c → SameBooks c d → At b d
    At-trans b c d (t, r) s =
        let step = Reads-SameTables c d s in
        (SameTables-trans b c d t step.0, (step.1.0 ∙ r.0, step.1.1 ∙ r.1))

    failing :
        (path : String) (x : ErrorText) (context : String) (y : ErrorText) (b c : Books A)
        → At b c
        → Exported kind key exporting e job out b
            (marked_then (job.mark (failed_mark path x) out.marked_at) (broke context y) c)
    failing path x context y b c (t, (r, n)) =
        let h = marks (failed_mark path x) out.marked_at c in
        record {
          tables =
              SameTables-trans b c (job.mark (failed_mark path x) out.marked_at c).1 t h.tables;
          runs = elim h.runs [
            | inl ((same, kept), bad) ↦ unmarked refl (same ∙ r, kept ∙ n)
            | inr (put, inl (noted, good)) ↦
                marked_failed path x refl (rw (← r) put) (inl (rw (← n) noted))
            | inr (put, inr (kept, bad)) ↦
                marked_failed path x refl (rw (← r) put) (inr (kept ∙ n, refl))
          ];
        }

    -- What a way to end well has written, for any end of the export.
    abbrev Ends : Mark → Books A → Type 0
    Ends m b =
        (q : Ended × Books A)
        → q.1.report_runs ≡ upsert_report (report_run kind key m out.marked_at) b.report_runs
        → Noted exporting m out b q
        → Written kind key exporting e job out b q

    ended :
        (m : Mark) (b c : Books A) (p : Result Unit × Books A)
        → At b c
        → Ends m b
        → Marking kind key exporting m out.marked_at c p
        → Exported kind key exporting e job out b (finished p)
    ended m b c (ok u, d) (t, (r, n)) done h = record {
      tables = SameTables-trans b c d t h.tables;
      runs = elim h.runs [
        | inl (same, bad) ↦ absurd cc
        | inr (put, inl (noted, good)) ↦ done (fine, d) (rw (← r) put) (inl (rw (← n) noted))
        | inr (put, inr (kept, bad)) ↦ absurd cc
      ];
    }
    ended m b c (err x, d) (t, (r, n)) done h = record {
      tables = SameTables-trans b c d t h.tables;
      runs = elim h.runs [
        | inl ((same, kept), bad) ↦ unmarked refl (same ∙ r, kept ∙ n)
        | inr (put, inl (noted, good)) ↦ absurd cc
        | inr (put, inr (kept, bad)) ↦
            done (broke "" (store_text x), d) (rw (← r) put) (inr (kept ∙ n, refl))
      ];
    }

    finishing :
        (m : Mark) (b c : Books A)
        → At b c
        → Ends m b
        → Exported kind key exporting e job out b (finished (job.mark m out.marked_at c))
    finishing m b c at done = ended m b c _ at done (marks m out.marked_at c)

    sent-Exported :
        (b c : Books A) (u : Uploading)
        → Saved e job out b
        → out.upload (path_of e job out) job.file_name ≡ u
        → At b c
        → Exported kind key exporting e job out b (sent e job out u c)
    sent-Exported b c (upload_failed x) s h at = failing _ _ _ _ b c at
    sent-Exported b c (uploaded_as id) s h at =
        finishing _ b c at (λ q put noted. marked_uploaded s id h put noted)

    upload_by-Exported :
        (b : Books A) (p : Found × Books A)
        → Saved e job out b
        → At b p.1
        → Exported kind key exporting e job out b (upload_by e job out p)
    upload_by-Exported b (not_found x, c) s at = failing _ _ _ _ b c at
    upload_by-Exported b (no_uploader, c) s at =
        finishing _ b c at (λ q put noted. marked_local s put noted)
    upload_by-Exported b (an_uploader, c) s at = sent-Exported b c _ s refl at

    loaded-Exported :
        (b : Books A) (p : Result (WorkbookData A) × Books A)
        → (job.load b).0 ≡ p.0
        → At b p.1
        → Exported kind key exporting e job out b (loaded e job out p)
    loaded-Exported b (err x, c) h at = failing _ _ _ _ b c at
    loaded-Exported b (ok book, c) h at =
        by_save (out.save_as (path_of e job out) (job.sheets book)) refl
      where
        by_save :
            (o : Option String)
            → out.save_as (path_of e job out) (job.sheets book) ≡ o
            → Exported kind key exporting e job out b (written e job out o c)
        by_save (some x) s = failing _ _ _ _ b c at
        by_save none s =
            upload_by-Exported b (uploader e out c) (book, h, s)
              (At-trans b c _ at (uploader-Reads e out c))

    in_dir-Exported :
        (b : Books A) (o : Option String)
        → Reads job.load
        → Exported kind key exporting e job out b (in_dir e job out o b)
    in_dir-Exported b (some x) reads = record {
      tables = (refl, refl);
      runs = unmarked refl (refl, refl);
    }
    in_dir-Exported b none reads =
        loaded-Exported b (job.load b) refl (At-trans b b _ ((refl, refl), (refl, refl)) (reads b))

    export-Exported :
        (b : Books A)
        → Reads job.load
        → Exported kind key exporting e job out b (export e job out b)
    unfolding export
    export-Exported b reads = in_dir-Exported b (out.make_dir e.export_dir) reads

  module _ ⦃f : Float64 A⦄ ⦃o : Collation⦄ (e : DailyExporter) (day : Time) (out : Outside A)
      (b : Books A) where
    -- Whatever fails, ExportDate leaves the rooms, stays, payments, events and settings as they are. Of
    -- `report_runs` it writes the row of its day or none, and the row says `uploaded` only where the
    -- workbook was read and written and the upload gave the id that stands in the row. Where it ends
    -- without an error it has written the row of the day in `export_runs` too, with the same mark;
    -- where it fails it has written that row or left `export_runs` as it was.
    pub export_date-Exported :
        Exported "daily"
          (day_key (day_of e.location day))
          (of_day e.location day)
          e
          (daily_job e day)
          out
          b
          (export_date e day out b)
    unfolding export_date
    export_date-Exported =
        export-Exported "daily" (day_key (day_of e.location day)) (of_day e.location day) e
          (daily_job e day) out (mark_export_run-Marks e.location day) b
          (daily_workbook_data-Reads e.location day)

    -- The same of ExportMonth, for the row of its month.
    pub export_month-Exported :
        Exported "monthly"
          (month_key (month_of (day_of e.location day)))
          of_month
          e
          (monthly_job e day)
          out
          b
          (export_month e day out b)
    unfolding export_month
    export_month-Exported =
        export-Exported "monthly" (month_key (month_of (day_of e.location day))) of_month e
          (monthly_job e day) out
          (mark_report_run-Marks "monthly" (month_key (month_of (day_of e.location day)))) b
          (monthly_workbook_data-Reads e.location day)
