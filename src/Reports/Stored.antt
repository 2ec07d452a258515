-- ===== src/Reports/Stored.antt =====
-- What SaveGoogleDriveConfig stores, GetGoogleDriveConfig finds.
use ccs2_plus.Prelude.{
  ◌≡◌, refl, ◌*◌, ◌/◌, String, some, List, [], ◌∷◌, ◌==◌, eq_iff, arith, if◌then◌else◌,
}
use ccs2_plus.Database.{Time, second, ok, format}
use ccs2_plus.Reports.{DriveConfig, json_of, Setting, Books, and_then, call, returns}
use ccs2_plus.Reports.Settings.{
  select_setting, upsert_setting, get_google_drive_config, save_google_drive_config,
}
use ccs2_plus.Reports.Calm.{calm}

pub select_setting-upsert_setting :
    (key : String) (row : Setting) (rows : List Setting)
    → select_setting key (upsert_setting row rows)
      ≡ (if row.setting_key == key then some row else select_setting key rows)
unfolding select_setting upsert_setting
select_setting-upsert_setting key row [] = refl
select_setting-upsert_setting key row (r ∷ rows) = ground (
  arith,
  select_setting-upsert_setting key row rows,
  eq_iff r.setting_key key,
  eq_iff row.setting_key key,
  eq_iff r.setting_key row.setting_key,
)

-- Where the driver does not fail, a configuration that is saved is the one that is found after it,
-- with the time of the saving cut to its second.
pub get_google_drive_config-save :
    {A : Type 0} (cfg : DriveConfig) (now : Time) (b : Books A)
    → (get_google_drive_config (save_google_drive_config cfg now (calm b)).1).0
      ≡ ok (record cfg { updated_at = now / second * second })
unfolding get_google_drive_config save_google_drive_config and_then call returns
get_google_drive_config-save cfg now b =
    rw
      (select_setting-upsert_setting "google_drive"
        (record {
          setting_key = "google_drive";
          value = json_of (record cfg { updated_at = now });
          updated_at = format now;
        })
        b.app_settings)
      refl
