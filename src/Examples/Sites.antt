-- ===== src/Examples/Sites.antt =====
-- Tests of the routes, and instances of the theorems on them and on a restart.
use ccs2_plus.Prelude.{ℕ, ◌≡◌, refl, false, true, none, some, List, [], ◌∷◌, All, trim_space}
use ccs2_plus.Prelude.Int.{pos}
use ccs2_plus.RoomMap.{RoomMapping}
use ccs2_plus.StateStore.{RoomState, StateStore, get}
use ccs2_plus.Database.{Conn, ok, rfc3339}
use ccs2_plus.Database.Statements.{has_room}
use ccs2_plus.Database.Seed.{open_store}
use ccs2_plus.Reports.Works.{Ready}
use ccs2_plus.Server.Restore.{new_state_store_from_store}
use ccs2_plus.Server.Start.{Held}
use ccs2_plus.Server.Restart.{restart-Held}
use ccs2_plus.Web.{Request, DriveRequest, DrivePayload, Page, drive_page, Site}
use ccs2_plus.Web.Drive.{handle_google_drive_config}
use ccs2_plus.Web.Paths.{split_slash, trim_slashes, trim_prefix}
use ccs2_plus.Web.Serve.{route}
use ccs2_plus.Web.Quiet.{Quiet, route-Quiet}
use ccs2_plus.Web.Enabled.{handle_google_drive_config-Ready}
use ccs2_plus.Examples.{room_1205, whole_amounts, by_second}
use ccs2_plus.Examples.Records.{row_1205, seeded, opened_on, noon}
use ccs2_plus.Examples.Requests.{server, clock, state_of}
use ccs2_plus.Examples.Exports.{exporter}

abbrev site : Site ℕ
site = record {
  server = server;
  report_runs = [];
  export_runs = [];
  app_settings = [];
  dashboard = "";
}

abbrev look : Request ℕ
look = record {
  method = "GET";
  path = "/api/rooms/1205";
  room_id = "";
  as_check_in = none;
  as_checkout = none;
  as_command = none;
  as_extend = none;
  as_payment = none;
  as_drive = none;
}

parts :
    split_slash (trim_slashes (trim_prefix "/api/rooms/1205/checkin/" "/api/rooms/"))
    ≡ "1205" ∷ "checkin" ∷ []
unfolding split_slash trim_slashes trim_prefix ccs2_plus.Web.Paths.trim_right_slash
    ccs2_plus.Web.Paths.trim_left_slash ccs2_plus.Web.Paths.behind
parts = refl

route-Quiet_example :
    Quiet site.server.events site
      (route ⦃f = whole_amounts⦄ ⦃o = by_second⦄ (λ path. false) clock look site).1
route-Quiet_example =
    route-Quiet ⦃f = whole_amounts⦄ ⦃o = by_second⦄ (λ path. false) clock look site refl

abbrev wanted : DriveRequest
wanted = record { credentials_path = " key.json"; folder_id = "folder"; enabled = true }

abbrev shown : DrivePayload
shown = record {
  credentials_path = "key.json";
  folder_id = "folder";
  enabled = true;
  updated_at = some noon;
  configured = true;
}

abbrev enabled : Site ℕ
enabled = (handle_google_drive_config "PUT" noon (some wanted) site).1

taken : handle_google_drive_config "PUT" noon (some wanted) site ≡ (drive_page shown, enabled)
unfolding handle_google_drive_config trim_space ccs2_plus.Reports.Settings.save_google_drive_config
    ccs2_plus.Reports.and_then ccs2_plus.Reports.call ccs2_plus.Reports.returns
taken = refl

handle_google_drive_config-Ready_example : Ready exporter enabled.app_settings
handle_google_drive_config-Ready_example =
    handle_google_drive_config-Ready exporter noon wanted site enabled shown refl taken

-- A restart on the database of one room, which the mapping has on another port by now.
abbrev moved_room : List RoomMapping
moved_room = record room_1205 { port_index = pos 7 } ∷ []

abbrev reopened : Conn ℕ
reopened = opened_on (record seeded { rooms = record row_1205 { port_index = pos 7 } ∷ [] }) []

opens :
    open_store ⦃f = whole_amounts⦄ true true moved_room noon (opened_on seeded [])
    ≡ (ok tt, reopened)
unfolding open_store ccs2_plus.Database.◌>>=◌ ccs2_plus.Database.Seed.exec
    ccs2_plus.Database.Seed.exec_times ccs2_plus.Database.Seed.seed_rooms
    ccs2_plus.Database.transaction ccs2_plus.Database.Seed.seed_body ccs2_plus.Database.statement
    ccs2_plus.Database.Seed.seed_all ccs2_plus.Database.Seed.seed_row
    ccs2_plus.StateStore.floor_from_room_id
opens = refl

abbrev restarted : StateStore ℕ
restarted =
    state_of
      (new_state_store_from_store ⦃f = whole_amounts⦄ ⦃o = by_second⦄ moved_room (λ i. i) reopened)

starts :
    new_state_store_from_store ⦃f = whole_amounts⦄ ⦃o = by_second⦄ moved_room (λ i. i) reopened
    ≡ (ok restarted, reopened)
unfolding new_state_store_from_store ccs2_plus.Server.Restore.restored
    ccs2_plus.Database.Reads.bootstrap ccs2_plus.Database.Reads.list_rooms
    ccs2_plus.Database.Reads.scan_rooms ccs2_plus.Database.Reads.sort_rows
    ccs2_plus.Database.Reads.place_row ccs2_plus.Database.Reads.list_recent_audit
    ccs2_plus.Database.Reads.scan_events ccs2_plus.Database.Reads.sort_events
starts = refl

restart-Held_example :
    All (Held restarted) seeded.rooms
    × All
        (λ (m : RoomMapping). (room : RoomState ℕ) × (get restarted m.room_id ≡ some room))
        moved_room
unfolding has_room
restart-Held_example =
    restart-Held ⦃f = whole_amounts⦄ ⦃o = by_second⦄ true true moved_room noon (λ i. i)
      (opened_on seeded []) reopened reopened restarted refl (refl, tt) opens starts
