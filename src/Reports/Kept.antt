-- ===== src/Reports/Kept.antt =====
-- The rows of `report_runs`: one for each kind and period, and what an upsert makes of them.
use ccs2_plus.Prelude.{
  String, ◌≡◌, refl, ◌↔◌, Bool, true, false, ◌&&◌, Option, none, some, List, [], ◌∷◌, ◌==◌, eq_iff,
  eqb_iff, if◌then◌else◌, Bool-cases, inl, inr, arith,
}
use mathlib.Core.Path.{subst}
use ccs2_plus.Reports.{PeriodKey, day_key, month_key, same_period, ReportRun}
use ccs2_plus.Reports.Runs.{same_run, upsert_report, has_period, uploaded_periods}

pub same_period_iff : (a b : PeriodKey) → (same_period a b ≡ true) ↔ (a ≡ b)
same_period_iff (day_key a) (day_key b) = ground (arith, eqb_iff a b)
same_period_iff (day_key a) (month_key b) = ground arith
same_period_iff (month_key a) (day_key b) = ground arith
same_period_iff (month_key a) (month_key b) = ground (arith, eqb_iff a b)

abbrev pub is_run : String → PeriodKey → ReportRun → Bool
is_run kind key r = r.report_kind == kind && same_period r.period_key key

-- The row of a kind and a period.
unfoldable pub find_run : String → PeriodKey → List ReportRun → Option ReportRun
find_run kind key [] = none
find_run kind key (r ∷ runs) =
    let rest = find_run kind key runs in if is_run kind key r then some r else rest

-- No two rows are of one kind and period.
abbrev pub IsKeyed : List ReportRun → Type 0
IsKeyed [] = Unit
IsKeyed (r ∷ runs) = (find_run r.report_kind r.period_key runs ≡ none) × IsKeyed runs

is_run_iff :
    (kind : String) (key : PeriodKey) (r : ReportRun)
    → (is_run kind key r ≡ true) ↔ ((r.report_kind ≡ kind) × (r.period_key ≡ key))
is_run_iff kind key r = ground (arith, eq_iff r.report_kind kind, same_period_iff r.period_key key)

pub find_run-upsert_report :
    (kind : String) (key : PeriodKey) (run : ReportRun) (runs : List ReportRun)
    → find_run kind key (upsert_report run runs)
      ≡ (if is_run kind key run then some run else find_run kind key runs)
unfolding find_run upsert_report
find_run-upsert_report kind key run [] = refl
find_run-upsert_report kind key run (r ∷ runs) = ground (
  arith,
  find_run-upsert_report kind key run runs,
  is_run_iff kind key run,
  is_run_iff kind key r,
  is_run_iff run.report_kind run.period_key r,
)

find_none-same :
    (kind kind' : String) (key key' : PeriodKey) (runs : List ReportRun)
    → (kind ≡ kind') × (key ≡ key')
    → find_run kind key runs ≡ none
    → find_run kind' key' runs ≡ none
find_none-same kind kind' key key' runs (e, e') h =
    subst (λ k. find_run k key' runs ≡ none) e (subst (λ k. find_run kind k runs ≡ none) e' h)

pub upsert_report-IsKeyed :
    (run : ReportRun) (runs : List ReportRun) → IsKeyed runs → IsKeyed (upsert_report run runs)
unfolding upsert_report find_run
upsert_report-IsKeyed run [] h = (refl, tt)
upsert_report-IsKeyed run (r ∷ runs) h =
    by_test (same_run r run) refl (upsert_report-IsKeyed run runs h.1)
  where
    by_test :
        (b : Bool)
        → same_run r run ≡ b
        → IsKeyed (upsert_report run runs)
        → IsKeyed (if b then run ∷ runs else r ∷ upsert_report run runs)
    by_test true e rest =
        (find_none-same _ _ _ _ runs ((is_run_iff run.report_kind run.period_key r).0 e) h.0, h.1)
    by_test false e rest = (
      ground (
        arith,
        find_run-upsert_report r.report_kind r.period_key run runs,
        is_run_iff r.report_kind r.period_key run,
        is_run_iff run.report_kind run.period_key r,
      ),
      rest,
    )

abbrev pub is_uploaded : Option ReportRun → Bool
is_uploaded none = false
is_uploaded (some r) = r.status == "uploaded"

-- The periods that count as done are those whose row says so.
pub has_period-uploaded_periods :
    (kind : String) (key : PeriodKey) (runs : List ReportRun)
    → IsKeyed runs
    → has_period key (uploaded_periods kind runs) ≡ is_uploaded (find_run kind key runs)
unfolding has_period uploaded_periods find_run
has_period-uploaded_periods kind key [] h = refl
has_period-uploaded_periods kind key (r ∷ runs) h = elim (Bool-cases (is_run kind key r)) [
  | inl e ↦
      let none_left : find_run kind key runs ≡ none =
        find_none-same _ _ _ _ runs ((is_run_iff kind key r).0 e) h.0 in
      ground
        (arith, none_left, has_period-uploaded_periods kind key runs h.1, is_run_iff kind key r)
  | inr e ↦ ground (arith, has_period-uploaded_periods kind key runs h.1)
]
