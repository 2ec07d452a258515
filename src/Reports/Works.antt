-- ===== src/Reports/Works.antt =====
-- An export in which nothing fails.
use ccs2_plus.Prelude.{
  ◌≡◌, refl, String, Bool, true, false, List, Option, none, some, ◌==◌, ap, ◌∙◌, keep,
}
use ccs2_plus.Prelude.Float.{Float64}
use ccs2_plus.Database.{Time, parse, Collation, Db, ok}
use ccs2_plus.Database.Reads.{
  RoomRecord, AuditRecord, scan_rooms, sort_rows, scan_events, list_rooms,
}
use ccs2_plus.Reports.{
  Location, day_of, day_key, DriveConfig, json_of, Setting, Books, call, and_then, returns,
}
use ccs2_plus.Reports.Runs.{
  report_run, export_run, upsert_report, upsert_export, mark_report_run, mark_export_run,
}
use ccs2_plus.Reports.Listings.{
  StayRecord, PaymentRecord, WorkbookData, scan_stays, scan_payments, sort_by, stay_before,
  payment_before, audit_before, gathered, list_stays_by_date, list_payments_by_date,
  list_audit_by_date, daily_workbook_data, stay_matches_date, same_local_date,
}
use ccs2_plus.Reports.Settings.{
  dated, found_setting, decoded_setting, select_setting, get_google_drive_config,
}
use ccs2_plus.Reports.Export.{
  Job, uploaded_as, Outside, DailyExporter, fine, uploaded_mark, an_uploader, uploader, configured,
  in_dir, path_of, sent, upload_by, written, loaded, export, daily_job, export_date,
}
use ccs2_plus.Reports.Calm.{calm}

module _ {A : Type 0} where
  -- All times of the tables that a workbook shows can be read.
  pub record IsReadable (db : Db A) ⦃o : Collation⦄ : Type 0 where
    pub rooms : List (RoomRecord A)
    pub stays : List (StayRecord A)
    pub payments : List (PaymentRecord A)
    pub audits : List AuditRecord
    pub rooms_read : scan_rooms (sort_rows db.rooms) ≡ some rooms
    pub stays_read : scan_stays (sort_by stay_before db.stays) ≡ some stays
    pub payments_read : scan_payments (sort_by payment_before db.payments) ≡ some payments
    pub audits_read : scan_events (sort_by audit_before db.audit_events) ≡ some audits

  -- The parts outside do their work.
  pub record Works (out : Outside A) : Type 0 where
    pub dir_made : (path : String) → out.make_dir path ≡ none
    pub saved : (path : String) → (sheets : _) → out.save_as path sheets ≡ none
    pub connects : (credentials folder : String) → out.connect credentials folder ≡ none
    pub id_of : String → String → String
    pub uploads : (path name : String) → out.upload path name ≡ uploaded_as (id_of path name)

-- There is an uploader: a fixed one, or that of settings which are complete and enabled.
pub data Ready (e : DailyExporter) (settings : List Setting) : Type 0 where
  fixed : e.static_uploader ≡ true → Ready e settings
  by_settings :
      (row : Setting) (cfg : DriveConfig)
      → e.static_uploader ≡ false
      → select_setting "google_drive" settings ≡ some row
      → row.value ≡ json_of cfg
      → cfg.enabled ≡ true
      → (cfg.credentials_path == "") ≡ false
      → (cfg.folder_id == "") ≡ false
      → Ready e settings

module _ {A : Type 0} where
  configured-Works :
      (out : Outside A) (b : Books A) (credentials folder : String) (on : Bool) (t : Time)
      → Works out
      → on ≡ true
      → (credentials == "") ≡ false
      → (folder == "") ≡ false
      → configured out (
        ok (record {
          credentials_path = credentials;
          folder_id = folder;
          enabled = on;
          updated_at = t;
        }),
        b,
      )
        ≡ (an_uploader, b)
  configured-Works out b credentials folder on t w h c d =
      rw (h, c, d, w.connects credentials folder) refl

  dated-Works :
      (out : Outside A) (b : Books A) (cfg : DriveConfig) (t : Option Time)
      → Works out
      → cfg.enabled ≡ true
      → (cfg.credentials_path == "") ≡ false
      → (cfg.folder_id == "") ≡ false
      → configured out (ok (dated cfg t), b) ≡ (an_uploader, b)
  dated-Works out b cfg none w h c d =
      configured-Works out b cfg.credentials_path cfg.folder_id cfg.enabled cfg.updated_at w h c d
  dated-Works out b cfg (some t) w h c d =
      configured-Works out b cfg.credentials_path cfg.folder_id cfg.enabled t w h c d

  uploader-calm :
      (e : DailyExporter) (out : Outside A) (b : Books A)
      → Works out
      → Ready e b.app_settings
      → uploader e out (calm b) ≡ (an_uploader, calm b)
  unfolding uploader get_google_drive_config and_then call
  uploader-calm e out b w (fixed s) = rw s refl
  uploader-calm e out b w (by_settings row cfg s found value on creds folder) = rw s (
      ap (λ x. configured out (found_setting x (calm b))) found
      ∙ ap (λ x. configured out (decoded_setting row.updated_at x (calm b))) value
      ∙ dated-Works out (calm b) cfg (parse row.updated_at) w on creds folder)

  module _ ⦃f : Float64 A⦄ ⦃o : Collation⦄ where
    daily_workbook_data-calm :
        (loc : Location) (day : Time) (b : Books A)
        → IsReadable b.conn.committed
        → (book : WorkbookData A) × (daily_workbook_data loc day (calm b) ≡ (ok book, calm b))
    unfolding daily_workbook_data gathered list_rooms list_stays_by_date list_payments_by_date
        list_audit_by_date and_then call returns
    daily_workbook_data-calm loc day b h = (
      record {
        period = day_key (day_of loc day);
        rooms = h.rooms;
        stays = keep (stay_matches_date loc day) h.stays;
        payments = keep (λ item. same_local_date loc item.paid_at day) h.payments;
        audits = keep (λ item. same_local_date loc item.timestamp day) h.audits;
      },
      rw (h.rooms_read, h.stays_read, h.payments_read, h.audits_read) refl,
    )

    -- What the books become by the upload of a day.
    abbrev pub uploaded_day : DailyExporter → Time → String → Outside A → Books A → Books A
    uploaded_day e day id out b =
        let m = uploaded_mark (path_of e (daily_job e day) out) id out.clock in
        let key = day_key (day_of e.location day) in
        record b {
          report_runs = upsert_report (report_run "daily" key m out.marked_at) b.report_runs;
          export_runs = upsert_export (export_run key m out.marked_at) b.export_runs;
        }

    pub export_date-calm :
        (e : DailyExporter) (day : Time) (out : Outside A) (b : Books A)
        → IsReadable b.conn.committed
        → Works out
        → Ready e b.app_settings
        → (id : String) × (export_date e day out (calm b)
            ≡ (fine, calm (uploaded_day e day id out b)))
    unfolding export_date export mark_export_run mark_report_run and_then call
    export_date-calm e day out b h w r =
        let (book, read) = daily_workbook_data-calm e.location day b h in
        let job : Job A = daily_job e day in
        let path = path_of e job out in
        (
          w.id_of path job.file_name,
          ap (λ x. in_dir e job out x (calm b)) (w.dir_made e.export_dir)
              ∙ ap (λ x. loaded e job out x) read
              ∙ ap (λ x. written e job out x (calm b)) (w.saved path (job.sheets book))
              ∙ ap (λ x. upload_by e job out x) (uploader-calm e out b w r)
              ∙ ap (λ x. sent e job out x (calm b)) (w.uploads path job.file_name),
        )
