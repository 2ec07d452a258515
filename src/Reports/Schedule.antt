-- ===== src/Reports/Schedule.antt =====
-- The days that times on a day fall on, and when the exporter of
-- go-backend/internal/reporting/exporter.go wakes up.
use ccs2_plus.Prelude.{ℕ, suc, ◌+◌, ◌*◌, ◌≤◌, ◌<◌, ◌≡◌, arith}
use ccs2_plus.Prelude.Int.{neg_part}
use ccs2_plus.Database.{Time, second}
use ccs2_plus.Reports.{Location, day_of, day_length, time_on, midnight}
use ccs2_plus.Reports.Export.{next_run_at}

pub day_of-time_on :
    (loc : Location) (day minute : ℕ)
    → minute < 1440
    → day_of loc (time_on loc (suc day) minute) ≡ suc day
day_of-time_on loc day minute h = ground (arith, loc.fits)

pub day_of-midnight : (loc : Location) (day : ℕ) → day_of loc (midnight loc day) ≡ day
day_of-midnight loc day = ground (arith, loc.fits)

pub next_run_at-bounds :
    (now : Time) (loc : Location)
    → neg_part loc.offset * second ≤ now
    → (now < next_run_at now loc) × (next_run_at now loc ≤ now + day_length + 10 * (60 * second))
unfolding next_run_at
next_run_at-bounds now loc h = ground (arith, loc.fits)
