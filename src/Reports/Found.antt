-- ===== src/Reports/Found.antt =====
-- What the queries of the candidates find, whatever the driver does: they read only, and either they fail
-- or they find what the tables and the rows of the runs have.
use ccs2_plus.Prelude.{
  String, ◌≡◌, refl, sym, ◌⊎◌, inl, inr, Bool, true, false, not, List, [], ◌∷◌, ◌++◌, map, keep,
  if◌then◌else◌, arith,
}
use mathlib.Core.Path.{subst}
use ccs2_plus.Prelude.Ascending.{ascending}
use ccs2_plus.Database.{
  Time, TimeText, is_blank_text, Db, StoreError, Result, ok, err, io, next_fault,
}
use ccs2_plus.Reports.{
  Location, day_of, midnight, ReportRun, Books, Call, spent, call, after, and_then, returns,
}
use ccs2_plus.Reports.Runs.{uploaded_periods, successful_report_periods}
use ccs2_plus.Reports.Candidates.{
  query_times, query_sources, sources, noted_days, candidate_daily_export_dates,
  candidate_monthly_export_months,
}
use ccs2_plus.Reports.Calm.{texts_of}
use ccs2_plus.Reports.Reading.{SameBooks, Reads, returns-Reads, call-Reads, and_then-Reads}

module _ {A : Type 0} where
  query_sources-Reads : (columns : List _) → Reads (query_sources {A = A} columns)
  unfolding query_sources query_times
  query_sources-Reads [] = returns-Reads _
  query_sources-Reads (column ∷ columns) =
      and_then-Reads _ _ (call-Reads _ _)
        λ texts. and_then-Reads _ _ (query_sources-Reads columns) λ rest. returns-Reads _

  successful-Reads : (kind : _) → Reads (successful_report_periods {A = A} kind)
  unfolding successful_report_periods
  successful-Reads kind = call-Reads _ _

  pub days-Reads :
      (now : Time) (loc : Location) → Reads (candidate_daily_export_dates {A = A} now loc)
  unfolding candidate_daily_export_dates
  days-Reads now loc =
      and_then-Reads _ _ (query_sources-Reads sources)
        λ texts. and_then-Reads _ _ (successful-Reads "daily") λ done. returns-Reads _

  pub months-Reads :
      (now : Time) (loc : Location) → Reads (candidate_monthly_export_months {A = A} now loc)
  unfolding candidate_monthly_export_months
  months-Reads now loc =
      and_then-Reads _ _ (days-Reads now loc)
        λ days. and_then-Reads _ _ (successful-Reads "monthly") λ done. returns-Reads _

  -- A call finds a value of the tables and the rows of the runs, or fails.
  abbrev pub Found : {R : Type 0} → (Db A → List ReportRun → R) → Books A → Result R → Type 0
  Found value b r =
      (r ≡ ok (value b.conn.committed b.report_runs)) ⊎ ((e : StoreError) × (r ≡ err e))

  abbrev pub Finds : {R : Type 0} → Call A R → (Db A → List ReportRun → R) → Type 0
  Finds m value = (b : Books A) → Found value b (m b).0

  call-Finds :
      {R : Type 0} (context : String) (value : Db A → List ReportRun → R)
      → Finds (call context (λ b. (value b.conn.committed b.report_runs, b))) value
  unfolding call
  call-Finds {R} context value b = by_test (next_fault b.conn.faults)
    where
      by_test :
          (x : Bool)
          → Found value b
              (if◌then◌else◌ {A = Result R × Books A} x
                (err (record { context = context; cause = io }), spent b)
                (ok (value b.conn.committed b.report_runs), spent b)).0
      by_test true = inr (_, refl)
      by_test false = inl refl

  after-Finds :
      {R S : Type 0} (f : R → Call A S) (value : Db A → List ReportRun → R)
      (next : Db A → List ReportRun → S) (b : Books A) (p : Result R × Books A)
      → Found value b p.0
      → SameBooks b p.1
      → Finds (f (value b.conn.committed b.report_runs)) next
      → Found next b (after f p).0
  after-Finds f value next b (err e, c) h s k = inr (e, refl)
  after-Finds f value next b (ok r, c) (inr (e, bad)) s k = absurd cc
  after-Finds f value next b (ok r, c) (inl e) (faults, same) k =
      let found : value b.conn.committed b.report_runs ≡ r = ground arith in
      subst (λ x. Found next b (f x c).0) found
        (subst (λ x. Found next b (f (value b.conn.committed b.report_runs) x).0) (sym same)
          (k (record b { conn = record b.conn { faults = faults } })))

  and_then-Finds :
      {R S : Type 0} (m : Call A R) (f : R → Call A S) (value : Db A → List ReportRun → R)
      (next : R → Db A → List ReportRun → S)
      → Reads m
      → Finds m value
      → ((r : R) → Finds (f r) (next r))
      → Finds (and_then m f) (λ db runs. next (value db runs) db runs)
  unfolding and_then
  and_then-Finds m f value next reads finds k b =
      after-Finds f value (next (value b.conn.committed b.report_runs)) b (m b) (finds b) (reads b)
        (λ c. k (value b.conn.committed b.report_runs) c)

  returns-Finds : {R : Type 0} (r : R) → Finds (returns r) (λ db runs. r)
  unfolding returns
  returns-Finds r b = inl refl

  query_sources-Finds :
      (columns : List (Db A → List TimeText))
      → Finds (query_sources columns) (λ db runs. texts_of columns db)
  unfolding query_sources query_times
  query_sources-Finds [] = returns-Finds []
  query_sources-Finds (column ∷ columns) =
      and_then-Finds _ _ (λ db runs. keep (λ text. not (is_blank_text text)) (column db))
        (λ texts db runs. texts ++ texts_of columns db) (call-Reads _ _)
        (call-Finds _ (λ db runs. keep (λ text. not (is_blank_text text)) (column db)))
        (λ texts.
          and_then-Finds _ _ (λ db runs. texts_of columns db) (λ rest db runs. texts ++ rest)
            (query_sources-Reads columns) (query_sources-Finds columns)
            (λ rest. returns-Finds (texts ++ rest)))

  -- Whatever the driver does, the candidates that are found are those of the tables.
  pub candidates-Finds :
      (now : Time) (loc : Location)
      → Finds (candidate_daily_export_dates now loc) (λ db runs. map (midnight loc) (
          ascending (
            noted_days loc (day_of loc now) (uploaded_periods "daily" runs) (texts_of sources db))))
  unfolding candidate_daily_export_dates successful_report_periods
  candidates-Finds now loc =
      and_then-Finds _ _ (λ db runs. texts_of sources db)
        (λ texts db runs.
          map (midnight loc)
            (ascending (noted_days loc (day_of loc now) (uploaded_periods "daily" runs) texts)))
        (query_sources-Reads sources) (query_sources-Finds sources)
        (λ texts.
          and_then-Finds _ _ (λ db runs. uploaded_periods "daily" runs)
            (λ successful db runs.
              map (midnight loc) (ascending (noted_days loc (day_of loc now) successful texts)))
            (call-Reads _ _) (call-Finds _ (λ db runs. uploaded_periods "daily" runs))
            (λ successful. returns-Finds _))
