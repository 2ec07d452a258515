-- ===== src/Reports/Daemon.antt =====
-- The goroutine of `Start` in go-backend/internal/reporting/exporter.go: a round at once, and one after
-- each wait for the next run, until the context ends. The times of the ticks are given.
use ccs2_plus.Prelude.{List, [], ◌∷◌}
use ccs2_plus.Prelude.Float.{Float64}
use ccs2_plus.Database.{Time, Collation}
use ccs2_plus.Reports.{Books}
use ccs2_plus.Reports.Export.{Outside, DailyExporter, run_pending}

-- A round: the readings of the clock in `runPending`, and the parts outside in it.
pub record Wake (A : Type 0) : Type 0 where
  pub now : Time
  pub later : Time
  pub daily : Time → Outside A
  pub monthly : Time → Outside A

module _ {A : Type 0} ⦃f : Float64 A⦄ ⦃o : Collation⦄ where
  abbrev pub round : DailyExporter → Wake A → Books A → Books A
  round e w b = run_pending e w.now w.later w.daily w.monthly b

  -- The loop: each wake is a tick of the timer.
  unfoldable pub rounds : DailyExporter → List (Wake A) → Books A → Books A
  rounds e [] b = b
  rounds e (w ∷ wakes) b = rounds e wakes (round e w b)

  -- `Start`, for an exporter with a store: the round at once, and the ticks until the context ends.
  unfoldable pub start_exporter : DailyExporter → Wake A → List (Wake A) → Books A → Books A
  start_exporter e first wakes b = rounds e wakes (round e first b)
