-- ===== src/Reports/Activity.antt =====
-- What happened on a day, from the rows of the tables, and whether the day has an uploaded report: the
-- description that CandidateDailyExportDates is compared with.
use ccs2_plus.Prelude.{
  ℕ, ◌≡◌, refl, ap, ◌==◌, Bool, false, ◌&&◌, ◌||◌, Option, none, some, List, [], ◌∷◌, map, eqb,
  arith,
}
use ccs2_plus.Database.{TimeText, Time, parse, StayRow, PaymentRow, AuditRow, Db}
use ccs2_plus.Reports.{Location, day_of, PeriodKey, day_key, month_key, same_period, ReportRun}
use ccs2_plus.Reports.Runs.{has_period, uploaded_periods}
use ccs2_plus.Reports.Candidates.{present}

-- A time on the given day.
abbrev pub is_on : Location → ℕ → Option Time → Bool
is_on loc d none = false
is_on loc d (some t) = eqb (day_of loc t) d

-- One of the texts is a time on the given day.
abbrev pub any_on : Location → ℕ → List TimeText → Bool
any_on loc d [] = false
any_on loc d (text ∷ texts) = is_on loc d (parse text) || any_on loc d texts

-- A day has an uploaded report: a row of `report_runs` says so.
abbrev pub is_day : ℕ → PeriodKey → Bool
is_day d (day_key k) = eqb k d
is_day d (month_key k) = false

abbrev pub has_report : ℕ → List ReportRun → Bool
has_report d [] = false
has_report d (r ∷ runs) =
    (r.report_kind == "daily" && (r.status == "uploaded" && is_day d r.period_key))
    || has_report d runs

pub same_period-day_key : (d : ℕ) (key : PeriodKey) → same_period key (day_key d) ≡ is_day d key
same_period-day_key d (day_key k) = refl
same_period-day_key d (month_key k) = refl

pub has_period-has_report :
    (d : ℕ) (runs : List ReportRun)
    → has_period (day_key d) (uploaded_periods "daily" runs) ≡ has_report d runs
unfolding has_period uploaded_periods
has_period-has_report d [] = refl
has_period-has_report d (r ∷ runs) =
    ground (arith, has_period-has_report d runs, same_period-day_key d r.period_key)

-- What happened on a day: a guest came or went or a room was cleaned, a payment was made, or an event
-- was recorded.
abbrev pub is_text_on : Location → ℕ → Option TimeText → Bool
is_text_on loc d none = false
is_text_on loc d (some text) = is_on loc d (parse text)

abbrev pub any_event_on : Location → ℕ → List AuditRow → Bool
any_event_on loc d [] = false
any_event_on loc d (row ∷ rows) = is_on loc d (parse row.event_time) || any_event_on loc d rows

pub any_event_on-column :
    (loc : Location) (d : ℕ) (rows : List AuditRow)
    → any_event_on loc d rows ≡ any_on loc d (map (λ row. row.event_time) rows)
any_event_on-column loc d [] = refl
any_event_on-column loc d (row ∷ rows) =
    ap (λ x. is_on loc d (parse row.event_time) || x) (any_event_on-column loc d rows)

module _ {A : Type 0} where
  abbrev pub any_stay_on : Location → ℕ → List (StayRow A) → Bool
  any_stay_on loc d [] = false
  any_stay_on loc d (row ∷ rows) =
      (is_text_on loc d row.guest_in_at
        || (is_text_on loc d row.guest_out_at || is_text_on loc d row.clean_up_at))
      || any_stay_on loc d rows

  abbrev pub any_payment_on : Location → ℕ → List (PaymentRow A) → Bool
  any_payment_on loc d [] = false
  any_payment_on loc d (row ∷ rows) = is_on loc d (parse row.paid_at) || any_payment_on loc d rows

  abbrev pub is_busy : Location → ℕ → Db A → Bool
  is_busy loc d db =
      any_stay_on loc d db.stays
      || (any_payment_on loc d db.payments || any_event_on loc d db.audit_events)

  any_on-present :
      (loc : Location) (d : ℕ) (column : StayRow A → Option TimeText) (row : StayRow A)
      (rows : List (StayRow A))
      → any_on loc d (present column (row ∷ rows))
        ≡ (is_text_on loc d (column row) || any_on loc d (present column rows))
  unfolding present
  any_on-present loc d column row rows = by_column (column row)
    where
      by_column :
          (t : Option TimeText)
          → any_on loc d (elim t [ none ↦ present column rows | some x ↦ x ∷ present column rows ])
            ≡ (is_text_on loc d t || any_on loc d (present column rows))
      by_column none = refl
      by_column (some x) = refl

  pub any_stay_on-columns :
      (loc : Location) (d : ℕ) (rows : List (StayRow A))
      → any_stay_on loc d rows ≡ (
          any_on loc d (present (λ row. row.guest_in_at) rows)
          || (any_on loc d (present (λ row. row.guest_out_at) rows)
              || any_on loc d (present (λ row. row.clean_up_at) rows)))
  unfolding present
  any_stay_on-columns loc d [] = refl
  any_stay_on-columns loc d (row ∷ rows) = ground (
    arith,
    any_stay_on-columns loc d rows,
    any_on-present loc d (λ row. row.guest_in_at) row rows,
    any_on-present loc d (λ row. row.guest_out_at) row rows,
    any_on-present loc d (λ row. row.clean_up_at) row rows,
  )

  pub any_payment_on-column :
      (loc : Location) (d : ℕ) (rows : List (PaymentRow A))
      → any_payment_on loc d rows ≡ any_on loc d (map (λ row. row.paid_at) rows)
  any_payment_on-column loc d [] = refl
  any_payment_on-column loc d (row ∷ rows) =
      ap (λ x. is_on loc d (parse row.paid_at) || x) (any_payment_on-column loc d rows)
