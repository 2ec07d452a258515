-- ===== src/Examples/Exports.antt =====
-- Tests of the reports, and instances of their theorems: one stay on a day, in Bangkok.
use ccs2_plus.Prelude.{
  ℕ, ◌+◌, ◌*◌, ◌/◌, ◌≤◌, ◌<◌, ◌≡◌, refl, String, true, false, Option, none, some, List, [], ◌∷◌,
  arith, length,
}
use ccs2_plus.Prelude.Int.{pos}
use ccs2_plus.Database.{Time, second, rfc3339, Db, StayRow, ok}
use ccs2_plus.Reports.{
  Location, day_of, day_length, day_key, month_key, month_of, first_of, text, DriveConfig, json_of,
  Setting, ReportRun, Books,
}
use ccs2_plus.Reports.Candidates.{candidate_daily_export_dates}
use ccs2_plus.Reports.Listings.{StayRecord, WorkbookData, stay_record}
use ccs2_plus.Reports.Settings.{get_google_drive_config, save_google_drive_config}
use ccs2_plus.Reports.Sheets.{by_key, by_day, top_rooms}
use ccs2_plus.Reports.Export.{
  Outside, DailyExporter, uploaded_as, uploaded_mark, daily_job, export_date, run_pending,
  next_run_at,
}
use ccs2_plus.Reports.Calm.{calm}
use ccs2_plus.Reports.Pending.{Listed, is_candidate, candidate_daily_export_dates-Listed}
use ccs2_plus.Reports.Schedule.{next_run_at-bounds}
use ccs2_plus.Reports.Kept.{find_run, is_uploaded}
use ccs2_plus.Reports.Outcome.{of_day}
use ccs2_plus.Reports.Runs.{report_run}
use ccs2_plus.Reports.Daemon.{Wake, start_exporter}
use ccs2_plus.Reports.Once.{report_of, start_exporter-keeps_uploaded}
use ccs2_plus.Reports.Exported.{Exported, export_date-Exported}
use ccs2_plus.Reports.Works.{IsReadable, Works, Ready, by_settings}
use ccs2_plus.Reports.Round.{run_pending-reports, run_pending-months}
use ccs2_plus.Reports.Stored.{get_google_drive_config-save}
use ccs2_plus.Reports.Totals.{sum_of, IsRanking, top_rooms-IsRanking, by_day_counts}
use ccs2_plus.Examples.{whole_amounts, by_second}
use ccs2_plus.Examples.Records.{seeded, opened_on, noon}

abbrev pub bangkok : Location
bangkok = record { name = "Asia/Bangkok"; offset = pos 25_200; fits = omega arith }

abbrev old_stay : StayRow ℕ
old_stay = record {
  stay_id = "s1";
  request_id = "r1";
  room_id = "1205";
  stay_mode = "overnight";
  case_code = "overnight";
  status = "out";
  guest_in_at = some (rfc3339 8_683_200);
  guest_out_at = none;
  clean_up_at = none;
  allocated_minutes = pos 720;
  used_minutes = pos 600;
  payment_amount = 500;
  payment_ref = "cash-1";
  remark = "";
  last_updated_at = rfc3339 8_683_200;
}

abbrev one_stay : Db ℕ
one_stay = record seeded { stays = old_stay ∷ [] }

abbrev drive : Setting
drive = record {
  setting_key = "google_drive";
  value = json_of (record {
    credentials_path = "/etc/ccs2/key.json";
    folder_id = "folder";
    enabled = true;
    updated_at = 0;
  });
  updated_at = rfc3339 0;
}

abbrev books : Books ℕ
books = record {
  conn = opened_on one_stay [];
  report_runs = [];
  export_runs = [];
  app_settings = drive ∷ [];
}

-- Two days after the stay.
abbrev later_day : Time
later_day = 102 * day_length

abbrev pub exporter : DailyExporter
exporter = record { export_dir = "exports"; location = bangkok; static_uploader = false }

abbrev fair : Outside ℕ
fair = record {
  make_dir = λ path. none;
  save_as = λ path sheets. none;
  connect = λ credentials folder. none;
  upload = λ path name. uploaded_as "file-1";
  clock = later_day;
  marked_at = later_day;
}

-- The parts outside where the upload cannot be made.
abbrev no_disk : Outside ℕ
no_disk = record fair { save_as = λ path sheets. some "disk full" }

readable : IsReadable one_stay ⦃o = by_second⦄
unfolding ccs2_plus.Database.Reads.scan_rooms ccs2_plus.Database.Reads.sort_rows
    ccs2_plus.Database.Reads.place_row ccs2_plus.Reports.Listings.scan_stays
    ccs2_plus.Reports.Listings.sort_by ccs2_plus.Reports.Listings.place_by
    ccs2_plus.Reports.Listings.scan_payments ccs2_plus.Database.Reads.scan_events
readable = record {
  rooms = _;
  stays = _;
  payments = _;
  audits = _;
  rooms_read = refl;
  stays_read = refl;
  payments_read = refl;
  audits_read = refl;
}

works : Works fair
works = record {
  dir_made = λ path. refl;
  saved = λ path. λ sheets. refl;
  connects = λ credentials. λ folder. refl;
  id_of = λ path. λ name. "file-1";
  uploads = λ path. λ name. refl;
}

ready : Ready exporter (drive ∷ [])
unfolding ccs2_plus.Reports.Settings.select_setting
ready = by_settings drive _ refl refl refl refl refl refl

-- The months of the 29th of February 2016 and of the day after it.
first_days : (first_of (month_of 736_022) ≡ 735_994) × (first_of (month_of 736_023) ≡ 736_023)
unfolding first_of month_of
first_days = (refl, refl)

candidate_daily_export_dates-Listed_example :
    Listed bangkok
      (is_candidate bangkok later_day books)
      (candidate_daily_export_dates later_day bangkok (calm books)).0
candidate_daily_export_dates-Listed_example =
    candidate_daily_export_dates-Listed later_day bangkok books

one_candidate :
    (candidate_daily_export_dates later_day bangkok books).0 ≡ ok (8_614_800 * second ∷ [])
unfolding candidate_daily_export_dates ccs2_plus.Reports.and_then
    ccs2_plus.Reports.Candidates.query_sources ccs2_plus.Reports.Candidates.query_times
    ccs2_plus.Reports.call ccs2_plus.Reports.returns
    ccs2_plus.Reports.Runs.successful_report_periods ccs2_plus.Prelude.Ascending.ascending
    ccs2_plus.Reports.Candidates.noted_days ccs2_plus.Reports.Candidates.present
    ccs2_plus.Reports.Runs.has_period ccs2_plus.Reports.Runs.uploaded_periods
    ccs2_plus.Prelude.Ascending.note ccs2_plus.Prelude.Ascending.place_number
one_candidate = refl

run_pending-reports_example :
    ((d : ℕ)
      → is_candidate bangkok later_day books d ≡ true
      → is_uploaded (
          find_run "daily"
            (day_key d)
            (run_pending ⦃f = whole_amounts⦄ ⦃o = by_second⦄ exporter later_day later_day
              (λ t. fair)
              (λ t. fair)
              (calm books)).report_runs)
        ≡ true)
    × ((d : ℕ)
        → is_candidate bangkok later_day
            (run_pending ⦃f = whole_amounts⦄ ⦃o = by_second⦄ exporter later_day later_day
              (λ t. fair)
              (λ t. fair)
              (calm books))
            d
          ≡ false)
run_pending-reports_example =
    run_pending-reports ⦃f = whole_amounts⦄ ⦃o = by_second⦄ exporter later_day later_day (λ t. fair)
      (λ t. fair) books readable (λ t. works) ready tt refl

run_pending-months_example :
    find_run "monthly"
      (month_key 3)
      (run_pending ⦃f = whole_amounts⦄ ⦃o = by_second⦄ exporter later_day later_day
        (λ t. fair)
        (λ t. fair)
        (calm books)).report_runs
    ≡ none
unfolding find_run
run_pending-months_example =
    run_pending-months ⦃f = whole_amounts⦄ ⦃o = by_second⦄ exporter later_day later_day (λ t. fair)
      (λ t. fair) books readable (λ t. works) ready tt refl 3

export_date-Exported_example :
    Exported "daily"
      (day_key (day_of bangkok (8_614_800 * second)))
      (of_day bangkok (8_614_800 * second))
      exporter
      (daily_job ⦃f = whole_amounts⦄ ⦃o = by_second⦄ exporter (8_614_800 * second))
      no_disk
      books
      (export_date ⦃f = whole_amounts⦄ ⦃o = by_second⦄ exporter (8_614_800 * second) no_disk books)
export_date-Exported_example =
    export_date-Exported ⦃f = whole_amounts⦄ ⦃o = by_second⦄ exporter (8_614_800 * second) no_disk
      books

next_run_at-bounds_example :
    (noon < next_run_at noon bangkok)
    × (next_run_at noon bangkok ≤ noon + day_length + 10 * (60 * second))
next_run_at-bounds_example = next_run_at-bounds noon bangkok (omega arith)

get_google_drive_config-save_example :
    (get_google_drive_config
      (save_google_drive_config
        (record { credentials_path = "k"; folder_id = "f"; enabled = true; updated_at = 0 })
        (noon + 7)
        (calm books)).1).0
    ≡ ok (record { credentials_path = "k"; folder_id = "f"; enabled = true; updated_at = noon })
get_google_drive_config-save_example =
    get_google_drive_config-save
      (record { credentials_path = "k"; folder_id = "f"; enabled = true; updated_at = 0 })
      (noon + 7) books

abbrev month_book : WorkbookData ℕ
month_book = record {
  period = month_key 3;
  rooms = [];
  stays = stay_record old_stay noon ∷ stay_record old_stay noon ∷ [];
  payments = [];
  audits = [];
}

top_rooms-IsRanking_example :
    IsRanking ⦃f = whole_amounts⦄ (top_rooms ⦃f = whole_amounts⦄ month_book.stays)
    × (sum_of (λ t. t.count) (top_rooms ⦃f = whole_amounts⦄ month_book.stays) ≡ 2)
top_rooms-IsRanking_example = top_rooms-IsRanking ⦃f = whole_amounts⦄ month_book.stays

both_on_a_day :
    (sum_of (λ t. t.stays) (by_key (by_day ⦃f = whole_amounts⦄ bangkok month_book)) ≡ 2)
    × (sum_of (λ t. t.pays) (by_key (by_day ⦃f = whole_amounts⦄ bangkok month_book)) ≡ 0)
    × (sum_of (λ t. t.audits) (by_key (by_day ⦃f = whole_amounts⦄ bangkok month_book)) ≡ 0)
both_on_a_day = by_day_counts ⦃f = whole_amounts⦄ bangkok month_book

-- A round in which the disk is full, and one in which all goes well.
abbrev full_round : Wake ℕ
full_round = record {
  now = later_day;
  later = later_day;
  daily = λ t. no_disk;
  monthly = λ t. no_disk;
}

abbrev fair_round : Wake ℕ
fair_round = record {
  now = later_day + day_length;
  later = later_day + day_length;
  daily = λ t. fair;
  monthly = λ t. fair;
}

-- The report of day 99 has been uploaded.
abbrev day_99 : ReportRun
day_99 =
    report_run "daily" (day_key 99) (uploaded_mark "exports/day.xlsx" "file-0" later_day) later_day

abbrev with_day_99 : Books ℕ
with_day_99 = record books { report_runs = day_99 ∷ [] }

start_exporter-keeps_uploaded_example :
    report_of 99 (
      start_exporter ⦃f = whole_amounts⦄ ⦃o = by_second⦄ exporter full_round
        (fair_round ∷ [])
        with_day_99)
    ≡ some day_99
unfolding find_run
start_exporter-keeps_uploaded_example =
    start_exporter-keeps_uploaded ⦃f = whole_amounts⦄ ⦃o = by_second⦄ exporter 99 day_99 full_round
      (fair_round ∷ []) with_day_99 refl refl
