-- ===== src/Reports/Pending.antt =====
-- Which days and months CandidateDailyExportDates and CandidateMonthlyExportMonths list.
use ccs2_plus.Prelude.{
  ℕ, ◌≡◌, refl, Bool, true, false, not, ◌&&◌, ◌||◌, Option, none, some, List, [], ◌∷◌, ◌++◌, map,
  leb, eqb, eqb_iff, if◌then◌else◌, Bool-cases, inl, inr, keep, arith,
}
use mathlib.Core.Path.{subst}
use ccs2_plus.Prelude.Ascending.{
  contains, note, contains-note, note-IsDistinct, ascending, contains-ascending,
  ascending-IsAscending, IsDistinct, IsAscending,
}
use ccs2_plus.Database.{Time, TimeText, rfc3339, other, parse, is_blank_text, Db, Result, ok}
use ccs2_plus.Reports.{
  Location, day_of, midnight, PeriodKey, day_key, Books, and_then, call, returns,
}
use ccs2_plus.Reports.Runs.{has_period, uploaded_periods, successful_report_periods}
use ccs2_plus.Reports.Activity.{
  is_on, any_on, has_report, has_period-has_report, is_busy, any_stay_on-columns,
  any_payment_on-column, any_event_on-column,
}
use ccs2_plus.Reports.Candidates.{note_day, noted_days, sources, candidate_daily_export_dates}
use ccs2_plus.Reports.Calm.{calm, texts_of, query_sources-calm}

any_on-append :
    (loc : Location) (d : ℕ) (xs ys : List TimeText)
    → any_on loc d (xs ++ ys) ≡ (any_on loc d xs || any_on loc d ys)
any_on-append loc d [] ys = refl
any_on-append loc d (x ∷ xs) ys = ground (arith, any_on-append loc d xs ys)

any_on-keep :
    (loc : Location) (d : ℕ) (xs : List TimeText)
    → any_on loc d (keep (λ text. not (is_blank_text text)) xs) ≡ any_on loc d xs
any_on-keep loc d [] = refl
any_on-keep loc d (rfc3339 s ∷ xs) = rw (any_on-keep loc d xs) refl
any_on-keep loc d (other text ∷ xs) = ground (arith, any_on-keep loc d xs)

-- The test of a period that decides whether it is noted.
abbrev pub noted_if : Bool → Bool → ℕ → List ℕ → List ℕ
noted_if past done k seen = if past then seen else if done then seen else note k seen

contains-noted_if :
    (a k : ℕ) (past done : Bool) (seen : List ℕ)
    → contains a (noted_if past done k seen)
      ≡ ((eqb k a && not past && not done) || contains a seen)
contains-noted_if a k true done seen = ground arith
contains-noted_if a k false true seen = ground arith
contains-noted_if a k false false seen = ground (arith, contains-note a k seen)

-- The same where the tests are of the period: the one that is asked for decides.
contains-noted_by :
    (a k : ℕ) (past done : ℕ → Bool) (seen : List ℕ)
    → contains a (noted_if (past k) (done k) k seen)
      ≡ ((eqb k a && (not (past a) && not (done a))) || contains a seen)
contains-noted_by a k past done seen = elim (Bool-cases (eqb k a)) [
  | inl e ↦
      subst
        (λ j.
          contains j (noted_if (past k) (done k) k seen)
          ≡ ((eqb k j && (not (past j) && not (done j))) || contains j seen))
        ((eqb_iff k a).0 e)
        (ground (arith, contains-noted_if k k (past k) (done k) seen, eqb_iff k k))
  | inr e ↦ ground (arith, contains-noted_if a k (past k) (done k) seen)
]

noted_if-IsDistinct :
    (k : ℕ) (past done : Bool) (seen : List ℕ)
    → IsDistinct seen
    → IsDistinct (noted_if past done k seen)
noted_if-IsDistinct k true done seen h = h
noted_if-IsDistinct k false true seen h = h
noted_if-IsDistinct k false false seen h = note-IsDistinct k seen h

module _ (loc : Location) (cutoff : ℕ) (successful : List PeriodKey) where
  -- A day is due: it is before the cutoff and has no report.
  abbrev is_due : ℕ → Bool
  is_due d = not (leb cutoff d) && not (has_period (day_key d) successful)

  contains-note_day :
      (d : ℕ) (t : Option Time) (seen : List ℕ)
      → contains d (note_day loc cutoff successful t seen)
        ≡ ((is_on loc d t && is_due d) || contains d seen)
  contains-note_day d none seen = refl
  contains-note_day d (some t) seen =
      contains-noted_by d (day_of loc t) (λ k. leb cutoff k)
        (λ k. has_period (day_key k) successful) seen

  contains-noted_days :
      (d : ℕ) (texts : List TimeText)
      → contains d (noted_days loc cutoff successful texts) ≡ (any_on loc d texts && is_due d)
  unfolding noted_days
  contains-noted_days d [] = refl
  contains-noted_days d (text ∷ texts) = ground (
    arith,
    contains-note_day d (parse text) (noted_days loc cutoff successful texts),
    contains-noted_days d texts,
  )

  note_day-IsDistinct :
      (t : Option Time) (seen : List ℕ)
      → IsDistinct seen
      → IsDistinct (note_day loc cutoff successful t seen)
  note_day-IsDistinct none seen h = h
  note_day-IsDistinct (some t) seen h =
      noted_if-IsDistinct (day_of loc t) (leb cutoff (day_of loc t))
        (has_period (day_key (day_of loc t)) successful) seen h

  noted_days-IsDistinct :
      (texts : List TimeText) → IsDistinct (noted_days loc cutoff successful texts)
  unfolding noted_days
  noted_days-IsDistinct [] = tt
  noted_days-IsDistinct (text ∷ texts) =
      note_day-IsDistinct (parse text) (noted_days loc cutoff successful texts)
        (noted_days-IsDistinct texts)

-- A list of days in their order that has exactly those which pass the test.
pub record Listed (loc : Location) (test : ℕ → Bool) (r : Result (List Time)) : Type 0 where
  pub days : List ℕ
  pub returned : r ≡ ok (map (midnight loc) days)
  pub in_order : IsAscending days
  pub exact : (d : ℕ) → contains d days ≡ test d

module _ {A : Type 0} where
  -- One of the columns of times has a time on the given day.
  abbrev any_column_on : Location → ℕ → List (Db A → List TimeText) → Db A → Bool
  any_column_on loc d [] db = false
  any_column_on loc d (column ∷ columns) db =
      any_on loc d (column db) || any_column_on loc d columns db

  any_on-texts_of :
      (loc : Location) (d : ℕ) (columns : List (Db A → List TimeText)) (db : Db A)
      → any_on loc d (texts_of columns db) ≡ any_column_on loc d columns db
  any_on-texts_of loc d [] db = refl
  any_on-texts_of loc d (column ∷ columns) db = ground (
    arith,
    any_on-append loc d (keep (λ text. not (is_blank_text text)) (column db)) (texts_of columns db),
    any_on-keep loc d (column db),
    any_on-texts_of loc d columns db,
  )

  -- The columns that the code reads are those of the stays, the payments and the events.
  any_column_on-is_busy :
      (loc : Location) (d : ℕ) (db : Db A) → any_column_on loc d sources db ≡ is_busy loc d db
  any_column_on-is_busy loc d db = ground (
    arith,
    any_stay_on-columns loc d db.stays,
    any_payment_on-column loc d db.payments,
    any_event_on-column loc d db.audit_events,
  )

  -- A day before today with a stay, a payment or an event, and no uploaded report.
  abbrev pub is_candidate : Location → Time → Books A → ℕ → Bool
  is_candidate loc now b d =
      is_busy loc d b.conn.committed
      && (not (leb (day_of loc now) d) && not (has_report d b.report_runs))

  abbrev pub candidate_days : Location → Time → Books A → List ℕ
  candidate_days loc now b = ascending (
      noted_days loc (day_of loc now) (uploaded_periods "daily" b.report_runs)
        (texts_of sources b.conn.committed))

  pub candidate_daily_export_dates-calm :
      (now : Time) (loc : Location) (b : Books A)
      → candidate_daily_export_dates now loc (calm b)
        ≡ (ok (map (midnight loc) (candidate_days loc now b)), calm b)
  unfolding candidate_daily_export_dates and_then call returns successful_report_periods
  candidate_daily_export_dates-calm now loc b = rw (query_sources-calm sources b) refl

  pub contains-candidate_days :
      (now : Time) (loc : Location) (b : Books A) (d : ℕ)
      → contains d (candidate_days loc now b) ≡ is_candidate loc now b d
  contains-candidate_days now loc b d =
      rw
        (
          contains-ascending d _,
          contains-noted_days loc (day_of loc now) (uploaded_periods "daily" b.report_runs) d
              (texts_of sources b.conn.committed),
          any_on-texts_of loc d sources b.conn.committed,
          any_column_on-is_busy loc d b.conn.committed,
          has_period-has_report d b.report_runs,
        )
        refl

  -- Where the driver does not fail, the candidates are midnight of exactly the days before today that
  -- have a stay, a payment or an event and no uploaded report, each once, in ascending order.
  pub candidate_daily_export_dates-Listed :
      (now : Time) (loc : Location) (b : Books A)
      → Listed loc (is_candidate loc now b) (candidate_daily_export_dates now loc (calm b)).0
  candidate_daily_export_dates-Listed now loc b = record {
    days = candidate_days loc now b;
    returned = rw (candidate_daily_export_dates-calm now loc b) refl;
    in_order = ascending-IsAscending _ (
        noted_days-IsDistinct loc (day_of loc now) (uploaded_periods "daily" b.report_runs)
          (texts_of sources b.conn.committed));
    exact = λ d. contains-candidate_days now loc b d;
  }
