-- ===== src/Reports/Once.antt =====
-- The report of a day that has been uploaded is not made again, whatever fails in the rounds.
use ccs2_plus.Prelude.{
  ℕ, String, ◌≡◌, refl, ap, ◌∙◌, ◌⊎◌, inl, inr, Bool, true, false, ◌&&◌, ◌==◌, eq_iff, Option, some,
  List, [], ◌∷◌, map, if◌then◌else◌, arith,
}
use ccs2_plus.Prelude.Float.{Float64}
use ccs2_plus.Prelude.Ascending.{contains}
use ccs2_plus.Database.{Time, Collation, StoreError, Result, ok, err}
use ccs2_plus.Reports.{day_of, midnight, PeriodKey, day_key, ReportRun, same_period, Books}
use ccs2_plus.Reports.Runs.{report_run, upsert_report, Mark}
use ccs2_plus.Reports.Candidates.{candidate_daily_export_dates, candidate_monthly_export_months}
use ccs2_plus.Reports.Export.{
  Outside, DailyExporter, Ended, Job, failed_mark, local_mark, uploaded_mark, path_of, export_date,
  export_month, export_dates, export_months, dates_found, months_found, run_pending,
}
use ccs2_plus.Reports.Schedule.{day_of-midnight}
use ccs2_plus.Reports.Kept.{find_run, find_run-upsert_report, is_run}
use ccs2_plus.Reports.Activity.{has_report, same_period-day_key}
use ccs2_plus.Reports.Pending.{candidate_days, contains-candidate_days}
use ccs2_plus.Reports.Reading.{SameBooks}
use ccs2_plus.Reports.Outcome.{Exporting}
use ccs2_plus.Reports.Exported.{
  Written, unmarked, marked_failed, marked_local, marked_uploaded, export_date-Exported,
  export_month-Exported,
}
use ccs2_plus.Reports.Found.{days-Reads, months-Reads, candidates-Finds}
use ccs2_plus.Reports.Daemon.{Wake, round, rounds, start_exporter}

-- The row of the report of a day.
abbrev pub report_of : {A : Type 0} → ℕ → Books A → Option ReportRun
report_of d b = find_run "daily" (day_key d) b.report_runs

uploaded-has_report :
    (d : ℕ) (row : ReportRun) (runs : List ReportRun)
    → find_run "daily" (day_key d) runs ≡ some row
    → row.status ≡ "uploaded"
    → has_report d runs ≡ true
unfolding find_run
uploaded-has_report d row [] h u = cc
uploaded-has_report d row (r ∷ runs) h u =
    by_test (is_run "daily" (day_key d) r) refl h (uploaded-has_report d row runs)
  where
    by_test :
        (b : Bool)
        → is_run "daily" (day_key d) r ≡ b
        → (if b then some r else find_run "daily" (day_key d) runs) ≡ some row
        → (find_run "daily" (day_key d) runs ≡ some row
            → row.status ≡ "uploaded"
            → has_report d runs ≡ true)
        → has_report d (r ∷ runs) ≡ true
    by_test true e f rest =
        let same : r ≡ row = ground arith in
        let status : r.status ≡ "uploaded" = ap (λ x. x.status) same ∙ u in
        ground (arith, same_period-day_key d r.period_key, eq_iff r.status "uploaded")
    by_test false e f rest = ground (arith, rest f u)

put_kept :
    {A : Type 0} (d : ℕ) (kind : String) (key : PeriodKey) (m : Mark) (now : Time) (b c : Books A)
    → (kind == "daily" && same_period key (day_key d)) ≡ false
    → c.report_runs ≡ upsert_report (report_run kind key m now) b.report_runs
    → report_of d c ≡ report_of d b
put_kept d kind key m now b c other put =
    ap (find_run "daily" (day_key d)) put
    ∙ rw (find_run-upsert_report "daily" (day_key d) _ b.report_runs, other) refl

module _ {A : Type 0} where
  -- An export of another kind or period leaves the report of the day.
  Written-kept :
      (d : ℕ) (kind : String) (key : PeriodKey) (exporting : Exporting) (e : DailyExporter)
      (job : Job A) (out : Outside A) (b : Books A) (p : Ended × Books A)
      → (kind == "daily" && same_period key (day_key d)) ≡ false
      → Written kind key exporting e job out b p
      → report_of d p.1 ≡ report_of d b
  Written-kept d kind key exporting e job out b p other (unmarked bad same) =
      ap (find_run "daily" (day_key d)) same.0
  Written-kept d kind key exporting e job out b p other (marked_failed path x bad put noted) =
      put_kept d kind key (failed_mark path x) out.marked_at b p.1 other put
  Written-kept d kind key exporting e job out b p other (marked_local saved put noted) =
      put_kept d kind key (local_mark (path_of e job out)) out.marked_at b p.1 other put
  Written-kept d kind key exporting e job out b p other (marked_uploaded saved id h put noted) =
      put_kept d kind key (uploaded_mark (path_of e job out) id out.clock) out.marked_at b p.1 other
        put

module _ {A : Type 0} ⦃f : Float64 A⦄ ⦃o : Collation⦄ (e : DailyExporter) (d : ℕ) where
  export_dates-kept :
      (outside : Time → Outside A) (days : List ℕ) (b : Books A)
      → contains d days ≡ false
      → report_of d (export_dates e outside (map (midnight e.location) days) b) ≡ report_of d b
  unfolding export_dates
  export_dates-kept outside [] b h = refl
  export_dates-kept outside (day ∷ days) b h =
      let t : Time = midnight e.location day in
      export_dates-kept outside days (export_date e t (outside t) b).1 (ground arith)
      ∙ Written-kept d "daily" (day_key (day_of e.location t)) _ e _ (outside t) b
          (export_date e t (outside t) b) (rw (day_of-midnight e.location day) (ground arith))
          (export_date-Exported e t (outside t) b).runs

  export_months-kept :
      (outside : Time → Outside A) (months : List Time) (b : Books A)
      → report_of d (export_months e outside months b) ≡ report_of d b
  unfolding export_months
  export_months-kept outside [] b = refl
  export_months-kept outside (t ∷ months) b =
      export_months-kept outside months (export_month e t (outside t) b).1
      ∙ Written-kept d "monthly" _ _ e _ (outside t) b (export_month e t (outside t) b) refl
          (export_month-Exported e t (outside t) b).runs

  months_found-kept :
      (outside : Time → Outside A) (b : Books A) (p : Result (List Time) × Books A)
      → SameBooks b p.1
      → report_of d (months_found e outside p) ≡ report_of d b
  months_found-kept outside b (err x, c) (faults, s) = ap (report_of d) s
  months_found-kept outside b (ok months, c) (faults, s) =
      export_months-kept outside months c ∙ ap (report_of d) s

  dates_found-kept :
      (now : Time) (outside : Time → Outside A) (b : Books A) (p : Result (List Time) × Books A)
      → has_report d b.report_runs ≡ true
      → SameBooks b p.1
      → (p.0 ≡ ok (map (midnight e.location) (candidate_days e.location now b)))
        ⊎ ((x : StoreError) × (p.0 ≡ err x))
      → report_of d (dates_found e outside p) ≡ report_of d b
  dates_found-kept now outside b (err x, c) h (faults, s) found = ap (report_of d) s
  dates_found-kept now outside b (ok days, c) h (faults, s) (inr (x, bad)) = absurd cc
  dates_found-kept now outside b (ok days, c) h (faults, s) (inl same) =
      let listed : days ≡ map (midnight e.location) (candidate_days e.location now b) =
        ground arith in
      ap (λ l. report_of d (export_dates e outside l c)) listed
      ∙ export_dates-kept outside (candidate_days e.location now b) c
          (contains-candidate_days now e.location b d ∙ rw h (ground arith))
      ∙ ap (report_of d) s

  round-kept :
      (w : Wake A) (b : Books A)
      → has_report d b.report_runs ≡ true
      → report_of d (round e w b) ≡ report_of d b
  unfolding run_pending
  round-kept w b h =
      let days = candidate_daily_export_dates w.now e.location b in
      let c = dates_found e w.daily days in
      months_found-kept w.monthly c (candidate_monthly_export_months w.later e.location c)
        (months-Reads w.later e.location c)
      ∙ dates_found-kept w.now w.daily b days h (days-Reads w.now e.location b)
          (candidates-Finds w.now e.location b)

  rounds-kept :
      (row : ReportRun) (wakes : List (Wake A)) (b : Books A)
      → report_of d b ≡ some row
      → row.status ≡ "uploaded"
      → report_of d (rounds e wakes b) ≡ some row
  unfolding rounds
  rounds-kept row [] b h u = h
  rounds-kept row (w ∷ wakes) b h u =
      rounds-kept row wakes (round e w b)
        (round-kept w b (uploaded-has_report d row b.report_runs h u) ∙ h) u

  -- Through any rounds of the exporter, whatever fails in them, the row of a day whose report has been
  -- uploaded stays as it is: the report is not made or marked again.
  pub start_exporter-keeps_uploaded :
      (row : ReportRun) (first : Wake A) (wakes : List (Wake A)) (b : Books A)
      → report_of d b ≡ some row
      → row.status ≡ "uploaded"
      → report_of d (start_exporter e first wakes b) ≡ some row
  unfolding start_exporter rounds
  start_exporter-keeps_uploaded row first wakes b h u = rounds-kept row (first ∷ wakes) b h u
