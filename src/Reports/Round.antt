-- ===== src/Reports/Round.antt =====
-- A round of the exporter in which nothing fails: runPending of
-- go-backend/internal/reporting/exporter.go.
use ccs2_plus.Prelude.{
  ℕ, String, ◌≡◌, refl, sym, ap, ◌∙◌, Bool, true, false, not, ◌&&◌, ◌||◌, List, [], ◌∷◌, map,
  eqb_iff, leb, arith,
}
use ccs2_plus.Prelude.Float.{Float64}
use ccs2_plus.Prelude.Ascending.{contains, ascending}
use ccs2_plus.Database.{Time, Collation, ok}
use ccs2_plus.Reports.{
  day_of, midnight, day_key, month_key, ReportRun, Books, and_then, call, returns,
}
use ccs2_plus.Reports.Runs.{successful_report_periods}
use ccs2_plus.Reports.Candidates.{noted_months, candidate_monthly_export_months}
use ccs2_plus.Reports.Export.{
  Outside, DailyExporter, export_dates, export_months, dates_found, months_found, run_pending,
}
use ccs2_plus.Reports.Calm.{calm}
use ccs2_plus.Reports.Schedule.{day_of-midnight}
use ccs2_plus.Reports.Kept.{
  find_run, find_run-upsert_report, IsKeyed, upsert_report-IsKeyed, is_uploaded,
  has_period-uploaded_periods,
}
use ccs2_plus.Reports.Activity.{is_busy, has_report, has_period-has_report}
use ccs2_plus.Reports.Pending.{
  is_candidate, candidate_days, contains-candidate_days, candidate_daily_export_dates-calm,
}
use ccs2_plus.Reports.Works.{IsReadable, Works, Ready, uploaded_day, export_date-calm}

contains_nothing : (xs : List ℕ) → ((d : ℕ) → contains d xs ≡ false) → xs ≡ []
contains_nothing [] h = refl
contains_nothing (x ∷ xs) h = absurd (ground (arith, h x, eqb_iff x x))

spent_test :
    (event past before after listed : Bool)
    → listed ≡ (event && (past && not before))
    → after ≡ (listed || before)
    → (event && (past && not after)) ≡ false
spent_test event past before after listed h k = ground (arith)

has_report_lem :
    (d : ℕ) (runs : List ReportRun)
    → IsKeyed runs
    → is_uploaded (find_run "daily" (day_key d) runs) ≡ has_report d runs
has_report_lem d runs k =
    sym (has_period-uploaded_periods "daily" (day_key d) runs k) ∙ has_period-has_report d runs

module _ {A : Type 0} ⦃f : Float64 A⦄ ⦃o : Collation⦄ (e : DailyExporter) where
  -- The books `c` after the exports of some days from the books `b`.
  pub record Days (days : List ℕ) (b c : Books A) : Type 0 where
    pub tables : c.conn.committed ≡ b.conn.committed
    pub settings : c.app_settings ≡ b.app_settings
    pub keyed : IsKeyed c.report_runs
    pub uploaded :
        (d : ℕ)
        → is_uploaded (find_run "daily" (day_key d) c.report_runs)
          ≡ (contains d days || is_uploaded (find_run "daily" (day_key d) b.report_runs))
    pub other_kind :
        (m : ℕ)
        → find_run "monthly" (month_key m) c.report_runs
          ≡ find_run "monthly" (month_key m) b.report_runs

  uploaded_day-Days :
      (day : ℕ) (id : String) (out : Outside A) (b : Books A)
      → IsKeyed b.report_runs
      → Days (day ∷ []) b (uploaded_day e (midnight e.location day) id out b)
  uploaded_day-Days day id out b k = record {
    tables = refl;
    settings = refl;
    keyed = upsert_report-IsKeyed _ b.report_runs k;
    uploaded = λ d.
        rw
          (
            find_run-upsert_report "daily" (day_key d) _ b.report_runs,
            day_of-midnight e.location day,
          )
          (ground arith);
    other_kind = λ m. rw (find_run-upsert_report "monthly" (month_key m) _ b.report_runs) refl;
  }

  Days-trans :
      (day : ℕ) (days : List ℕ) (b c d : Books A)
      → Days (day ∷ []) b c
      → Days days c d
      → Days (day ∷ days) b d
  Days-trans day days b c d x y = record {
    tables = y.tables ∙ x.tables;
    settings = y.settings ∙ x.settings;
    keyed = y.keyed;
    uploaded = λ k. ground (arith, x.uploaded k, y.uploaded k);
    other_kind = λ m. y.other_kind m ∙ x.other_kind m;
  }

  export_dates-Days :
      (outside : Time → Outside A) (days : List ℕ) (b : Books A)
      → IsReadable b.conn.committed
      → ((t : Time) → Works (outside t))
      → Ready e b.app_settings
      → IsKeyed b.report_runs
      → (c : Books A) × (export_dates e outside (map (midnight e.location) days) (calm b) ≡ calm c)
        × Days days b c
  unfolding export_dates
  export_dates-Days outside [] b h w r k = (
    b,
    refl,
    record {
      tables = refl;
      settings = refl;
      keyed = k;
      uploaded = λ d. refl;
      other_kind = λ m. refl;
    },
  )
  export_dates-Days outside (day ∷ days) b h w r k =
      let t : Time = midnight e.location day in
      let (id, done) = export_date-calm e t (outside t) b h (w t) r in
      let c : Books A = uploaded_day e t id (outside t) b in
      let first : Days (day ∷ []) b c = uploaded_day-Days day id (outside t) b k in
      let (d, rest, more) = export_dates-Days outside days c h w r first.keyed in
      (
        d,
        ap (λ p. export_dates e outside (map (midnight e.location) days) p.1) done ∙ rest,
        Days-trans day days b c d first more,
      )

  -- After the exports of all candidates no candidate is left.
  none_left :
      (now later : Time) (b c : Books A)
      → IsKeyed b.report_runs
      → day_of e.location later ≡ day_of e.location now
      → Days (candidate_days e.location now b) b c
      → (d : ℕ) → is_candidate e.location later c d ≡ false
  none_left now later b c k same h d =
      let uploaded : has_report d c.report_runs
          ≡ (contains d (candidate_days e.location now b) || has_report d b.report_runs) =
        sym (has_report_lem d c.report_runs h.keyed)
        ∙ h.uploaded d
        ∙ ap (λ x. contains d (candidate_days e.location now b) || x)
            (has_report_lem d b.report_runs k) in
      ap
        (λ db.
          is_busy e.location d db
          && (not (leb (day_of e.location later) d) && not (has_report d c.report_runs)))
        h.tables
      ∙ ap
          (λ t.
            is_busy e.location d b.conn.committed
            && (not (leb t d) && not (has_report d c.report_runs)))
          same
      ∙ spent_test _ _ _ _ _ (contains-candidate_days now e.location b d) uploaded

  monthly-calm :
      (later : Time) (c : Books A)
      → ((d : ℕ) → is_candidate e.location later c d ≡ false)
      → candidate_monthly_export_months later e.location (calm c) ≡ (ok [], calm c)
  unfolding candidate_monthly_export_months and_then call returns successful_report_periods
      noted_months ascending
  monthly-calm later c h =
      let none_due =
        contains_nothing (candidate_days e.location later c)
          (λ d. contains-candidate_days later e.location c d ∙ h d) in
      rw (candidate_daily_export_dates-calm later e.location c, none_due) refl

  -- How a round ends: its days have their reports, and no candidate is left.
  pub record Round (now : Time) (b c : Books A) : Type 0 where
    pub tables : c.conn.committed ≡ b.conn.committed
    pub reported :
        (d : ℕ)
        → is_candidate e.location now b d ≡ true
        → is_uploaded (find_run "daily" (day_key d) c.report_runs) ≡ true
    pub none_due : (d : ℕ) → is_candidate e.location now c d ≡ false
    pub months :
        (m : ℕ)
        → find_run "monthly" (month_key m) c.report_runs
          ≡ find_run "monthly" (month_key m) b.report_runs

  run_pending-Round :
      (now later : Time) (daily monthly : Time → Outside A) (b : Books A)
      → IsReadable b.conn.committed
      → ((t : Time) → Works (daily t))
      → Ready e b.app_settings
      → IsKeyed b.report_runs
      → day_of e.location later ≡ day_of e.location now
      → (c : Books A) × (run_pending e now later daily monthly (calm b) ≡ calm c) × Round now b c
  unfolding run_pending export_months
  run_pending-Round now later daily monthly b h w r k same =
      let days = candidate_days e.location now b in
      let (c, exported, at_end) = export_dates-Days daily days b h w r k in
      let left = λ (t : Time).
        λ (s : day_of e.location t ≡ day_of e.location now). none_left now t b c k s at_end in
      (
        c,
        ap
              (λ p.
                months_found e monthly
                  (candidate_monthly_export_months later e.location (dates_found e daily p)))
              (candidate_daily_export_dates-calm now e.location b)
            ∙ ap (λ x. months_found e monthly (candidate_monthly_export_months later e.location x))
                exported
            ∙ ap (λ p. months_found e monthly p) (monthly-calm later c (left later same)),
        record {
          tables = at_end.tables;
          reported = λ d.
              λ due. ground (arith, at_end.uploaded d, contains-candidate_days now e.location b d);
          none_due = left now refl;
          months = at_end.other_kind;
        },
      )

  module _ (now later : Time) (daily monthly : Time → Outside A) (b : Books A)
      (readable : IsReadable b.conn.committed) (works : (t : Time) → Works (daily t))
      (ready : Ready e b.app_settings) (keyed : IsKeyed b.report_runs)
      (same : day_of e.location later ≡ day_of e.location now) where
    -- Where the driver does not fail, the times of the tables can be read, the parts outside work and
    -- there is an uploader, and the second reading of the clock is on the day of the first, a round of
    -- runPending uploads the report of every day that was due, and no day is due after it.
    pub run_pending-reports :
        ((d : ℕ)
          → is_candidate e.location now b d ≡ true
          → is_uploaded (
              find_run "daily"
                (day_key d)
                (run_pending e now later daily monthly (calm b)).report_runs)
            ≡ true)
        × ((d : ℕ)
            → is_candidate e.location now (run_pending e now later daily monthly (calm b)) d
              ≡ false)
    run_pending-reports =
        let (c, ends, round) =
          run_pending-Round now later daily monthly b readable works ready keyed same in
        rw ends (round.reported, round.none_due)

    -- Under the same conditions a round makes no report of a month: the months are looked for among
    -- the days that are due, and none is left.
    pub run_pending-months :
        (m : ℕ)
        → find_run "monthly"
            (month_key m)
            (run_pending e now later daily monthly (calm b)).report_runs
          ≡ find_run "monthly" (month_key m) b.report_runs
    run_pending-months m =
        let (c, ends, round) =
          run_pending-Round now later daily monthly b readable works ready keyed same in
        rw ends (round.months m)
