-- ===== src/Examples/Starts.antt =====
-- A start of the program where the database cannot be read, and the instance of its theorem.
use ccs2_plus.Prelude.{ℕ, ◌≡◌, refl, ap, Bool, true, false, none, some, List, [], ◌∷◌}
use ccs2_plus.Prelude.Int.{pos, negsuc}
use ccs2_plus.Transport.{memory_writer}
use ccs2_plus.StateStore.{StateStore}
use ccs2_plus.StateStore.Fresh.{KnowsRooms}
use ccs2_plus.Database.{Conn, ok, err, io}
use ccs2_plus.Database.Reads.{bootstrap}
use ccs2_plus.Database.Seed.{open_store, remapped}
use ccs2_plus.Reports.{Books}
use ccs2_plus.Boot.{
  default_config, accepted, refused, invalid_baud_rate, invalid_write_delay, half_of_gdrive,
  load_app_config, Outside, Parts, running, default_mapping, unreadable, start,
  new_server_with_store, when_opened, writer_of,
}
use ccs2_plus.Boot.Known.{start-KnowsRooms}
use ccs2_plus.Examples.{whole_amounts, by_second}
use ccs2_plus.Examples.Records.{seeded, opened_on, noon, row_1205}
use ccs2_plus.Examples.Exports.{bangkok}

defaults_accepted : load_app_config default_config ≡ accepted default_config
unfolding load_app_config
defaults_accepted = refl

baud_0_refused :
    load_app_config (record default_config { serial_baud = pos 0 })
    ≡ refused (invalid_baud_rate (pos 0))
unfolding load_app_config
baud_0_refused = refl

delay_refused :
    load_app_config (record default_config { write_delay_ms = negsuc 0 })
    ≡ refused (invalid_write_delay (negsuc 0))
unfolding load_app_config
delay_refused = refl

folder_alone_refused :
    load_app_config (record default_config { google_drive_folder_id = "folder" })
    ≡ refused half_of_gdrive
unfolding load_app_config
folder_alone_refused = refl

abbrev found : Outside
found = record {
  room_map_file = λ path. unreadable;
  location_of = λ name. some bangkok;
  db_dir_made = true;
  db_opened = true;
  device_opens = λ device. false;
  attributes = none;
  takes_attributes = λ t. false;
  opened_at = noon;
  saved_at = noon;
  room_clock = λ i. i;
  later_clock = λ i. i;
}

-- The sixteen calls of Open succeed, and the first read of the start fails.
abbrev faults : List Bool
faults =
    false ∷ false ∷ false ∷ false ∷ false ∷ false ∷ false ∷ false ∷ false ∷ false ∷ false ∷ false
    ∷ false ∷ false ∷ false ∷ false ∷ true ∷ []

abbrev books : Books ℕ
books = record {
  conn = opened_on seeded faults;
  report_runs = [];
  export_runs = [];
  app_settings = [];
}

-- The database after Open: the row has the card and the port of the mapping.
abbrev reopened : Conn ℕ
reopened = opened_on (record seeded { rooms = remapped default_mapping row_1205 ∷ [] }) (true ∷ [])

opens :
    open_store ⦃f = whole_amounts⦄ true true (default_mapping ∷ []) noon books.conn
    ≡ (ok tt, reopened)
unfolding open_store ccs2_plus.Database.◌>>=◌ ccs2_plus.Database.Seed.exec
    ccs2_plus.Database.Seed.exec_times ccs2_plus.Database.Seed.seed_rooms
    ccs2_plus.Database.transaction ccs2_plus.Database.Seed.seed_body ccs2_plus.Database.statement
    ccs2_plus.Database.Seed.seed_all ccs2_plus.Database.Seed.seed_row
    ccs2_plus.StateStore.floor_from_room_id
opens = refl

read_fails :
    (bootstrap ⦃o = by_second⦄ reopened).0 ≡ err (record { context = "list rooms"; cause = io })
unfolding bootstrap ccs2_plus.Database.Reads.list_rooms
read_fails = refl

abbrev parts : Parts ℕ
parts = record {
  server =
      new_server_with_store ⦃f = whole_amounts⦄ ⦃o = by_second⦄ (default_mapping ∷ []) (λ i. i)
        (λ i. i) memory_writer reopened;
  exporter = record { export_dir = "./exports"; location = bangkok; static_uploader = false };
  books = record books { conn = reopened };
}

runs :
    start ⦃f = whole_amounts⦄ ⦃o = by_second⦄ default_config found memory_writer books
    ≡ running parts
unfolding start writer_of
runs =
    ap
      (λ r.
        when_opened ⦃f = whole_amounts⦄ ⦃o = by_second⦄ default_config found memory_writer
          (default_mapping ∷ []) (r.0, record books { conn = r.1 }))
      opens

start-KnowsRooms_example : KnowsRooms (default_mapping ∷ []) parts.server.state
start-KnowsRooms_example =
    start-KnowsRooms ⦃f = whole_amounts⦄ ⦃o = by_second⦄ default_config found memory_writer books
      (default_mapping ∷ []) parts refl runs
