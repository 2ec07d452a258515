-- ===== src/Web/Drive.antt =====
-- handleGoogleDriveConfig and googleDriveConfigPayload of go-backend/internal/httpapi/server.go.
use ccs2_plus.Prelude.{
  String, not, ◌&&◌, ◌||◌, Option, none, some, ◌==◌, if◌then◌else◌, eqb, trim_space,
}
use ccs2_plus.Database
use ccs2_plus.Database.{Time, Conn, Result}
use ccs2_plus.Reports.{DriveConfig, Books}
use ccs2_plus.Reports.Settings.{get_google_drive_config, save_google_drive_config}
use ccs2_plus.Web.{
  DriveRequest, DrivePayload, bad_body, incomplete, no_store, of_store, Page, not_found, drive_page,
  drive_failure, Site, books_of, with_books,
}

abbrev pub google_drive_config_payload : DriveConfig → DrivePayload
google_drive_config_payload cfg = record {
  credentials_path = cfg.credentials_path;
  folder_id = cfg.folder_id;
  enabled = cfg.enabled;
  updated_at = if eqb cfg.updated_at 0 then none else some cfg.updated_at;
  configured = not (cfg.credentials_path == "") && not (cfg.folder_id == "");
}

-- The configuration that a request is to store.
abbrev pub requested : DriveRequest → DriveConfig
requested req = record {
  credentials_path = trim_space req.credentials_path;
  folder_id = trim_space req.folder_id;
  enabled = req.enabled;
  updated_at = 0;
}

module _ {A : Type 0} where
  -- The answer to a call of the store.
  abbrev pub drive_answer : String → Site A → Result DriveConfig × Books A → Page A × Site A
  drive_answer code site (Database.ok cfg, b) =
      (drive_page (google_drive_config_payload cfg), with_books site b)
  drive_answer code site (Database.err e, b) =
      (drive_failure 500 code (of_store e), with_books site b)

  abbrev pub put_drive : Site A → Time → Option DriveRequest → Conn A → Page A × Site A
  put_drive site now none conn = (drive_failure 400 "INVALID_JSON" bad_body, site)
  put_drive site now (some req) conn =
      if req.enabled && (trim_space req.credentials_path == "" || trim_space req.folder_id == "")
      then (drive_failure 400 "INVALID_GDRIVE_CONFIG" incomplete, site)
      else drive_answer "CONFIG_WRITE_FAILED" site
          (save_google_drive_config (requested req) now (books_of site conn))

  abbrev pub drive_in :
      String → Time → Option DriveRequest → Site A → Option (Conn A) → Page A × Site A
  drive_in method now body site none = (drive_failure 503 "CONFIG_STORE_UNAVAILABLE" no_store, site)
  drive_in method now body site (some conn) =
      if method == "GET"
      then drive_answer "CONFIG_READ_FAILED" site (get_google_drive_config (books_of site conn))
      else if method == "PUT"
      then put_drive site now body conn
      else (not_found, site)

  unfoldable pub handle_google_drive_config :
      String → Time → Option DriveRequest → Site A → Page A × Site A
  handle_google_drive_config method now body site = drive_in method now body site site.server.store
