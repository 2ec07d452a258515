-- ===== src/Reports/Settings.antt =====
-- GetGoogleDriveConfig and SaveGoogleDriveConfig of go-backend/internal/store/store.go.
use ccs2_plus.Prelude.{String, false, Option, none, some, List, [], ◌∷◌, ◌==◌, if◌then◌else◌}
use ccs2_plus.Database.{Time, TimeText, format, parse, bad_json, ok, err}
use ccs2_plus.Reports.{
  DriveConfig, SettingText, json_of, plain, Setting, Call, call, and_then, returns,
}

abbrev pub empty_config : DriveConfig
empty_config = record { credentials_path = ""; folder_id = ""; enabled = false; updated_at = 0 }

unfoldable pub select_setting : String → List Setting → Option Setting
select_setting key [] = none
select_setting key (row ∷ rows) =
    let rest = select_setting key rows in if row.setting_key == key then some row else rest

unfoldable pub upsert_setting : Setting → List Setting → List Setting
upsert_setting row [] = row ∷ []
upsert_setting row (r ∷ rows) =
    let rest = upsert_setting row rows in
    if r.setting_key == row.setting_key then row ∷ rows else r ∷ rest

-- `cfg.UpdatedAt = parsed`, where the column can be read.
abbrev pub dated : DriveConfig → Option Time → DriveConfig
dated cfg none = cfg
dated cfg (some t) = record cfg { updated_at = t }

module _ {A : Type 0} where
  abbrev pub decoded_setting : TimeText → SettingText → Call A DriveConfig
  decoded_setting updated_at (json_of cfg) b = (ok (dated cfg (parse updated_at)), b)
  decoded_setting updated_at (plain text) b =
      (err (record { context = "decode google drive config"; cause = bad_json }), b)

  abbrev pub found_setting : Option Setting → Call A DriveConfig
  found_setting none b = (ok empty_config, b)
  found_setting (some row) b = decoded_setting row.updated_at row.value b

  unfoldable pub get_google_drive_config : Call A DriveConfig
  get_google_drive_config =
      and_then
        (call "load google drive config" (λ b. (select_setting "google_drive" b.app_settings, b)))
        found_setting

  unfoldable pub save_google_drive_config : DriveConfig → Time → Call A DriveConfig
  save_google_drive_config cfg now =
      let saved : DriveConfig = record cfg { updated_at = now } in
      let row : Setting = record {
        setting_key = "google_drive";
        value = json_of saved;
        updated_at = format now;
      } in
      and_then
        (call "save google drive config"
          (λ b. (tt, record b { app_settings = upsert_setting row b.app_settings })))
        (λ _. returns saved)
