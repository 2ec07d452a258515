-- ===== src/Reports/Outcome.antt =====
-- What the calls that mark a run leave behind, whatever fails in them.
use ccs2_plus.Prelude.{
  ◌≡◌, refl, ap, ◌∙◌, ◌⊎◌, inl, inr, String, Bool, true, false, List, if◌then◌else◌,
}
use ccs2_plus.Database.{Time, Result, ok, err, io, next_fault}
use ccs2_plus.Reports.{
  Location, day_of, ExportRun, PeriodKey, day_key, Books, Call, spent, call, after, and_then,
}
use ccs2_plus.Reports.Runs.{
  Mark, report_run, export_run, upsert_report, upsert_export, mark_report_run, mark_export_run,
}
use ccs2_plus.Reports.Export.{Ended, fine, broke}
use ccs2_plus.Reports.Reading.{SameBooks}

abbrev pub is_ok : {R : Type 0} → Result R → Bool
is_ok (ok r) = true
is_ok (err e) = false

abbrev pub is_fine : Ended → Bool
is_fine fine = true
is_fine (broke context e) = false

-- What a mark does to the rows of `export_runs`: a day has one there, a month has none.
abbrev pub Exporting : Type 0
Exporting = Mark → Time → List ExportRun → List ExportRun

abbrev pub of_day : Location → Time → Exporting
of_day loc day m now runs = upsert_export (export_run (day_key (day_of loc day)) m now) runs

abbrev pub of_month : Exporting
of_month m now runs = runs

module _ {A : Type 0} where
  -- The tables of the rooms and the settings are as they were.
  abbrev pub SameTables : Books A → Books A → Type 0
  SameTables b b' = (b'.conn.committed ≡ b.conn.committed) × (b'.app_settings ≡ b.app_settings)

  pub SameTables-trans : (b c d : Books A) → SameTables b c → SameTables c d → SameTables b d
  SameTables-trans b c d (e, e') (f, f') = (f ∙ e, f' ∙ e')

  -- The rows of the two tables of runs are as they were.
  abbrev pub SameRuns : Books A → Books A → Type 0
  SameRuns b b' = (b'.report_runs ≡ b.report_runs) × (b'.export_runs ≡ b.export_runs)

  pub Reads-SameTables : (b b' : Books A) → SameBooks b b' → SameTables b b' × (SameRuns b b')
  Reads-SameTables b b' (faults, e) = (
    (ap (λ (x : Books A). x.conn.committed) e, ap (λ (x : Books A). x.app_settings) e),
    (ap (λ (x : Books A). x.report_runs) e, ap (λ (x : Books A). x.export_runs) e),
  )

  -- A call that marks a run succeeds and writes its rows in both tables, or fails: then it has written
  -- none, or only the row of `report_runs`, as no transaction joins the two statements.
  pub record Marking (kind : String) (key : PeriodKey) (exporting : Exporting) (m : Mark)
      (now : Time) (b : Books A) (p : Result Unit × Books A) : Type 0 where
    pub tables : SameTables b p.1
    pub runs :
        (SameRuns b p.1 × (is_ok p.0 ≡ false))
        ⊎ ((p.1.report_runs ≡ upsert_report (report_run kind key m now) b.report_runs)
            × (((p.1.export_runs ≡ exporting m now b.export_runs) × (is_ok p.0 ≡ true))
                ⊎ ((p.1.export_runs ≡ b.export_runs) × (is_ok p.0 ≡ false))))

  abbrev pub Marks : String → PeriodKey → Exporting → (Mark → Time → Call A Unit) → Type 0
  Marks kind key exporting mark =
      (m : Mark) (now : Time) (b : Books A) → Marking kind key exporting m now b (mark m now b)

  pub mark_report_run-Marks :
      (kind : String) (key : PeriodKey) → Marks kind key of_month (mark_report_run kind key)
  unfolding mark_report_run call
  mark_report_run-Marks kind key m now b = by_test (next_fault b.conn.faults)
    where
      by_test :
          (x : Bool)
          → Marking kind key of_month m now b (
              if◌then◌else◌ {A = Result Unit × Books A} x
                (err (record { context = "mark report run"; cause = io }), spent b)
                (
                  ok tt,
                  record (spent b) {
                    report_runs = upsert_report (report_run kind key m now) b.report_runs;
                  },
                ))
      by_test true = record { tables = (refl, refl); runs = inl ((refl, refl), refl) }
      by_test false = record { tables = (refl, refl); runs = inr (refl, inl (refl, refl)) }

  -- The second statement of MarkExportRun: it writes its row or fails, and leaves the rows of the first.
  abbrev Follows : (List ExportRun → List ExportRun) → Books A → Result Unit × Books A → Type 0
  Follows f b p =
      SameTables b p.1
      × (p.1.report_runs ≡ b.report_runs)
      × (((p.1.export_runs ≡ f b.export_runs) × (is_ok p.0 ≡ true))
          ⊎ ((p.1.export_runs ≡ b.export_runs) × (is_ok p.0 ≡ false)))

  second_statement :
      (context : String) (f : List ExportRun → List ExportRun) (b : Books A)
      → Follows f b (call context (λ b. (tt, record b { export_runs = f b.export_runs })) b)
  unfolding call
  second_statement context f b = by_test (next_fault b.conn.faults)
    where
      by_test :
          (x : Bool)
          → Follows f b (
              if◌then◌else◌ {A = Result Unit × Books A} x
                (err (record { context = context; cause = io }), spent b)
                (ok tt, record (spent b) { export_runs = f (spent b).export_runs }))
      by_test true = ((refl, refl), refl, inr (refl, refl))
      by_test false = ((refl, refl), refl, inl (refl, refl))

  after-Marking :
      (kind : String) (key : PeriodKey) (exporting : Exporting) (m : Mark) (now : Time)
      (b : Books A) (p : Result Unit × Books A) (k : Unit → Call A Unit)
      → Marking kind key of_month m now b p
      → ((c : Books A) → Follows (exporting m now) c (k tt c))
      → Marking kind key exporting m now b (after k p)
  after-Marking kind key exporting m now b (err e, c) k h s = record {
    tables = h.tables;
    runs = elim h.runs [
      | inl (same, bad) ↦ inl (same, refl)
      | inr (put, inl (same, good)) ↦ absurd cc
      | inr (put, inr (same, bad)) ↦ inr (put, inr (same, refl))
    ];
  }
  after-Marking kind key exporting m now b (ok r, c) k h s =
      let (tables, reports, exports) = s c in
      record {
        tables = SameTables-trans b c (k tt c).1 h.tables tables;
        runs = elim h.runs [
          | inl (same, bad) ↦ absurd cc
          | inr (put, inr (same, bad)) ↦ absurd cc
          | inr (put, inl (same, good)) ↦ inr (
            reports ∙ put,
            elim exports [
              | inl (done, well) ↦ inl (done ∙ ap (exporting m now) same, well)
              | inr (kept, bad) ↦ inr (kept ∙ same, bad)
            ],
          )
        ];
      }

  pub mark_export_run-Marks :
      (loc : Location) (day : Time)
      → Marks "daily" (day_key (day_of loc day)) (of_day loc day) (mark_export_run loc day)
  unfolding mark_export_run and_then
  mark_export_run-Marks loc day m now b =
      after-Marking "daily" (day_key (day_of loc day)) (of_day loc day) m now b _ _
        (mark_report_run-Marks "daily" (day_key (day_of loc day)) m now b)
        (λ c. second_statement "mark export run" (of_day loc day m now) c)
