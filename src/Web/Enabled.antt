-- ===== src/Web/Enabled.antt =====
-- A configuration that the server has taken as enabled gives the exporter an uploader.
use ccs2_plus.Prelude.{
  ◌≡◌, refl, sym, ap, String, Bool, true, false, ◌&&◌, ◌||◌, Bool-cases, inl, inr, Option, none,
  some, ◌==◌, if◌then◌else◌, trim_space, arith,
}
use mathlib.Core.Path.{subst}
use ccs2_plus.Database
use ccs2_plus.Database.{Time, Conn, Result, io, format, next_fault}
use ccs2_plus.Reports.{DriveConfig, json_of, Setting, Books, spent, call, after, and_then, returns}
use ccs2_plus.Reports.Settings.{upsert_setting, save_google_drive_config}
use ccs2_plus.Reports.Stored.{select_setting-upsert_setting}
use ccs2_plus.Reports.Export.{DailyExporter}
use ccs2_plus.Reports.Works.{Ready, fixed, by_settings}
use ccs2_plus.Web.{
  DriveRequest, DrivePayload, Page, drive_page, drive_failure, incomplete, Site, books_of,
}
use ccs2_plus.Web.Drive.{requested, drive_answer, drive_in, handle_google_drive_config}

abbrev setting_of : DriveConfig → Time → Setting
setting_of cfg now = record {
  setting_key = "google_drive";
  value = json_of (record cfg { updated_at = now });
  updated_at = format now;
}

setting_of-Ready :
    (e : DailyExporter) (req : DriveRequest) (now : Time) (rows : _)
    → req.enabled ≡ true
    → (trim_space req.credentials_path == "" || trim_space req.folder_id == "") ≡ false
    → Ready e (upsert_setting (setting_of (requested req) now) rows)
setting_of-Ready e req now rows on whole = elim (Bool-cases e.static_uploader) [
  | inl s ↦ fixed s
  | inr s ↦
      by_settings (setting_of (requested req) now) (record (requested req) { updated_at = now }) s
        (select_setting-upsert_setting "google_drive" (setting_of (requested req) now) rows) refl on
        (ground (arith, whole)) (ground (arith, whole))
]

module _ {A : Type 0} where
  -- What a saving that succeeds has made of the settings.
  answered_settings :
      (code : String) (cfg : DriveConfig) (now : Time) (site site' : Site A) (c : Conn A)
      (page : DrivePayload)
      → drive_answer code site (save_google_drive_config cfg now (books_of site c))
        ≡ (drive_page page, site')
      → site'.app_settings ≡ upsert_setting (setting_of cfg now) site.app_settings
  unfolding save_google_drive_config and_then call returns
  answered_settings code cfg now site site' c page h = by_test (next_fault c.faults) h
    where
      by_test :
          (x : Bool)
          → ◌≡◌ {A = Page A × Site A}
              (drive_answer code site (
                after
                  (λ (u : Unit).
                    λ (b : Books A). (Database.ok (record cfg { updated_at = now }), b))
                  (if◌then◌else◌ {A = Result Unit × Books A} x
                    (
                      Database.err (record { context = "save google drive config"; cause = io }),
                      spent (books_of site c),
                    )
                    (
                      Database.ok tt,
                      record (spent (books_of site c)) {
                        app_settings = upsert_setting (setting_of cfg now) site.app_settings;
                      },
                    ))))
              (drive_page page, site')
          → site'.app_settings ≡ upsert_setting (setting_of cfg now) site.app_settings
      by_test true h = cc
      by_test false h = ap (λ p. p.1.app_settings) (sym h)

  put_drive-settings :
      (now : Time) (req : DriveRequest) (site site' : Site A) (o : Option (Conn A))
      (page : DrivePayload)
      → req.enabled ≡ true
      → drive_in "PUT" now (some req) site o ≡ (drive_page page, site')
      → (site'.app_settings ≡ upsert_setting (setting_of (requested req) now) site.app_settings)
        × ((trim_space req.credentials_path == "" || trim_space req.folder_id == "") ≡ false)
  put_drive-settings now req site site' none page on h = cc
  put_drive-settings now req site site' (some c) page on h =
      by_test
        (req.enabled && (trim_space req.credentials_path == "" || trim_space req.folder_id == ""))
        refl h
    where
      by_test :
          (x : Bool)
          → (req.enabled
              && (trim_space req.credentials_path == "" || trim_space req.folder_id == ""))
            ≡ x
          → ◌≡◌ {A = Page A × Site A}
              (if x
                then (drive_failure 400 "INVALID_GDRIVE_CONFIG" incomplete, site)
                else drive_answer "CONFIG_WRITE_FAILED" site
                    (save_google_drive_config (requested req) now (books_of site c)))
              (drive_page page, site')
          → (site'.app_settings ≡ upsert_setting (setting_of (requested req) now) site.app_settings)
            × ((trim_space req.credentials_path == "" || trim_space req.folder_id == "") ≡ false)
      by_test true e h = cc
      by_test false e h = (
        answered_settings "CONFIG_WRITE_FAILED" (requested req) now site site' c page h,
        ground (arith, on, e),
      )

  -- Where the server answers a PUT of an enabled configuration with the configuration, the settings
  -- after it give the exporter an uploader: both texts are there.
  pub handle_google_drive_config-Ready :
      (e : DailyExporter) (now : Time) (req : DriveRequest) (site site' : Site A)
      (page : DrivePayload)
      → req.enabled ≡ true
      → handle_google_drive_config "PUT" now (some req) site ≡ (drive_page page, site')
      → Ready e site'.app_settings
  unfolding handle_google_drive_config
  handle_google_drive_config-Ready e now req site site' page on h =
      let (stored, whole) = put_drive-settings now req site site' site.server.store page on h in
      subst (Ready e) (sym stored) (setting_of-Ready e req now site.app_settings on whole)
