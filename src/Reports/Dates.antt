-- ===== src/Reports/Dates.antt =====
-- The texts of days and months, as go-backend/internal/store/store.go and
-- go-backend/internal/reporting/exporter.go have Go write them.
use ccs2_plus.Prelude.{ℕ, ◌+◌, ◌-◌, ◌*◌, ◌/◌, ◌%◌, String, append, ltb, if◌then◌else◌, decimal}
use ccs2_plus.Reports.{march_year, march_first, PeriodKey, day_key, month_key}

-- `%02d`.
abbrev pad2 : ℕ → String
pad2 n = if ltb n 10 then append "0" (decimal n) else decimal n

-- `%04d`.
abbrev pad4 : ℕ → String
pad4 n =
    if ltb n 10
    then append "000" (decimal n)
    else if ltb n 100
    then append "00" (decimal n)
    else if ltb n 1000
    then append "0" (decimal n)
    else decimal n

-- `Format("2006-01")` of the month that has the number `month`, from March of year 0.
unfoldable pub month_text : ℕ → String
month_text month =
    let m = month % 12 in
    append (pad4 (month / 12 + (if ltb m 10 then 0 else 1)))
      (append "-" (pad2 (if ltb m 10 then m + 3 else m - 9)))

-- `Format("2006-01-02")` of a day.
unfoldable pub day_text : ℕ → String
day_text day =
    let z = day + 306 in
    let y = march_year z in
    let m = (5 * (z - march_first y) + 2) / 153 in
    append (month_text (y * 12 + m)) (append "-" (pad2 (z - march_first y - (153 * m + 2) / 5 + 1)))

unfoldable pub period_text : PeriodKey → String
period_text (day_key d) = day_text d
period_text (month_key m) = month_text m
