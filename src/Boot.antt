-- ===== src/Boot.antt =====
-- The start of the program: go-backend/internal/config/app.go, roommap_loader.go and go-backend/main.go,
-- with NewServerWithStore of go-backend/internal/httpapi/server.go. What the file system and the time
-- zone database give is an argument.
pub mod Known
use ccs2_plus.Prelude.{
  ℕ, String, Bool, true, false, not, Option, none, some, List, [], ◌∷◌, ◌==◌, if◌then◌else◌,
}
use ccs2_plus.Prelude.Int.{ℤ, pos, ltb_ℤ}
use ccs2_plus.Prelude.Float.{Float64}
use ccs2_plus.RoomMap.{RoomMapping, new_memory_repository}
use ccs2_plus.Transport.{Writer, memory_writer, new_service}
use ccs2_plus.Transport.Serial.{Termios, configure_serial}
use ccs2_plus.StateStore.{StateStore, new_state_store}
use ccs2_plus.Database
use ccs2_plus.Database.{Time, Collation, Conn, Result, StoreError}
use ccs2_plus.Database.Seed.{open_store}
use ccs2_plus.Reports.{Location, DriveConfig, Books, on_conn}
use ccs2_plus.Reports.Settings.{save_google_drive_config}
use ccs2_plus.Reports.Export.{DailyExporter}
use ccs2_plus.Server.{Server}
use ccs2_plus.Server.Restore.{new_state_store_from_store}
use ccs2_plus.Events.{new_event_broker}

pub record AppConfig : Type 0 where
  pub listen_addr : String
  pub room_map_path : String
  pub serial_device : String
  pub serial_baud : ℤ
  pub write_delay_ms : ℤ
  pub db_path : String
  pub export_dir : String
  pub export_timezone : String
  pub google_drive_credentials : String
  pub google_drive_folder_id : String
  pub dashboard_dir : String

-- The values of the flags that are not given.
abbrev pub default_config : AppConfig
default_config = record {
  listen_addr = ":8080";
  room_map_path = "";
  serial_device = "";
  serial_baud = pos 9600;
  write_delay_ms = pos 30;
  db_path = "./data/ccs2plus.db";
  export_dir = "./exports";
  export_timezone = "Asia/Bangkok";
  google_drive_credentials = "";
  google_drive_folder_id = "";
  dashboard_dir = "";
}

pub data ConfigError : Type 0 where
  invalid_baud_rate invalid_write_delay : ℤ → ConfigError
  empty_db_path half_of_gdrive : ConfigError

pub data Checked : Type 0 where
  accepted : AppConfig → Checked
  refused : ConfigError → Checked

-- `(a == "") != (b == "")`.
abbrev pub differ : Bool → Bool → Bool
differ true b = not b
differ false b = b

-- `LoadAppConfig` after the flags have been parsed.
unfoldable pub load_app_config : AppConfig → Checked
load_app_config cfg =
    if ltb_ℤ cfg.serial_baud (pos 1)
    then refused (invalid_baud_rate cfg.serial_baud)
    else if ltb_ℤ cfg.write_delay_ms (pos 0)
    then refused (invalid_write_delay cfg.write_delay_ms)
    else if cfg.db_path == ""
    then refused empty_db_path
    else if differ (cfg.google_drive_credentials == "") (cfg.google_drive_folder_id == "")
    then refused half_of_gdrive
    else accepted cfg

-- `LoadRoomMapFile`: what the path holds, and what it decodes to.
pub data RoomMapFile : Type 0 where
  unreadable undecodable : RoomMapFile
  decoded : List RoomMapping → RoomMapFile

-- What the start finds outside the program.
pub record Outside : Type 0 where
  pub room_map_file : String → RoomMapFile
  pub location_of : String → Option Location
  pub db_dir_made : Bool
  pub db_opened : Bool
  pub device_opens : String → Bool
  pub attributes : Option Termios
  pub takes_attributes : Termios → Bool
  pub opened_at : Time
  pub saved_at : Time
  pub room_clock : ℕ → ℕ
  pub later_clock : ℕ → ℕ

pub data Fatal : Type 0 where
  load_room_map load_timezone open_serial : Fatal
  open_sqlite save_config : StoreError → Fatal

-- The parts that run after a start.
pub record Parts (A : Type 0) : Type 0 where
  pub server : Server A
  pub exporter : DailyExporter
  pub books : Books A

pub data Started (A : Type 0) : Type 0 where
  fatal : Fatal → Started A
  running : Parts A → Started A

abbrev pub default_mapping : RoomMapping
default_mapping = record {
  room_id = "1205";
  controller_id = "ctrl-1205";
  address = 3;
  card_index = 3;
  port_index = pos 5;
}

-- The mappings: those of the file where one is named.
abbrev pub mappings_of : AppConfig → Outside → Option (List RoomMapping)
mappings_of cfg out =
    if cfg.room_map_path == ""
    then some (default_mapping ∷ [])
    else elim (out.room_map_file cfg.room_map_path) [
      | unreadable ↦ none
      | undecodable ↦ none
      | decoded rooms ↦ some rooms
    ]

-- `NewSerialWriter`, or the writer in memory where no device is named. The frames that a device takes
-- and the outcomes of its calls are those of the writer of the service.
unfoldable pub writer_of : AppConfig → Outside → Writer → Option Writer
writer_of cfg out device =
    if cfg.serial_device == ""
    then some memory_writer
    else if not (out.device_opens cfg.serial_device)
    then none
    else elim (configure_serial out.attributes out.takes_attributes cfg.serial_baud) [
      | none ↦ none
      | some t ↦ some device
    ]

module _ {A : Type 0} ⦃f : Float64 A⦄ ⦃o : Collation⦄ where
  -- The state of `NewServerWithStore`: where the database cannot be read, the fresh one stays.
  abbrev pub first_state : StateStore A → Result (StateStore A) × Conn A → StateStore A × Conn A
  first_state fresh (Database.ok state, c) = (state, c)
  first_state fresh (Database.err e, c) = (fresh, c)

  -- The clocks are those of the fresh rooms and of the ones for the restored state.
  unfoldable pub new_server_with_store :
      List RoomMapping → (ℕ → ℕ) → (ℕ → ℕ) → Writer → Conn A → Server A
  new_server_with_store mappings clock later writer c =
      let (state, c') =
        first_state (new_state_store mappings clock)
          (new_state_store_from_store mappings later c) in
      record {
        state = state;
        transport = new_service (new_memory_repository mappings) (some writer);
        store = some c';
        events = new_event_broker;
      }

  -- `main` after the settings are saved: the exporter, the writer and the server.
  abbrev pub serve_on :
      AppConfig → Outside → List RoomMapping → Location → Option Writer → Books A → Started A
  serve_on cfg out mappings location none b = fatal open_serial
  serve_on cfg out mappings location (some writer) b =
      let server = new_server_with_store mappings out.room_clock out.later_clock writer b.conn in
      running (record {
        server = server;
        exporter = record {
          export_dir = cfg.export_dir;
          location = location;
          static_uploader = false;
        };
        books = b;
      })

  abbrev pub saved_config :
      AppConfig
      → Outside
      → Writer
      → List RoomMapping
      → Location
      → Result DriveConfig × Books A
      → Started A
  saved_config cfg out device mappings location (Database.err e, b) = fatal (save_config e)
  saved_config cfg out device mappings location (Database.ok saved, b) =
      serve_on cfg out mappings location (writer_of cfg out device) b

  abbrev pub in_location :
      AppConfig → Outside → Writer → List RoomMapping → Option Location → Books A → Started A
  in_location cfg out device mappings none b = fatal load_timezone
  in_location cfg out device mappings (some location) b =
      if cfg.google_drive_credentials == ""
      then serve_on cfg out mappings location (writer_of cfg out device) b
      else saved_config cfg out device mappings location (
          save_google_drive_config
            (record {
              credentials_path = cfg.google_drive_credentials;
              folder_id = cfg.google_drive_folder_id;
              enabled = true;
              updated_at = 0;
            })
            out.saved_at b)

  abbrev pub when_opened :
      AppConfig → Outside → Writer → List RoomMapping → Result Unit × Books A → Started A
  when_opened cfg out device mappings (Database.err e, b) = fatal (open_sqlite e)
  when_opened cfg out device mappings (Database.ok r, b) =
      in_location cfg out device mappings (out.location_of cfg.export_timezone) b

  abbrev pub with_mappings :
      AppConfig → Outside → Writer → Option (List RoomMapping) → Books A → Started A
  with_mappings cfg out device none b = fatal load_room_map
  with_mappings cfg out device (some mappings) b =
      when_opened cfg out device mappings
        (on_conn (open_store out.db_dir_made out.db_opened mappings out.opened_at) b)

  -- `main` with a configuration that was accepted, on the books that the database file holds.
  unfoldable pub start : AppConfig → Outside → Writer → Books A → Started A
  start cfg out device b = with_mappings cfg out device (mappings_of cfg out) b
