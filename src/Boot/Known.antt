-- ===== src/Boot/Known.antt =====
-- Which rooms a start has in memory, also where it cannot read the database.
use ccs2_plus.Prelude.{
  ◌≡◌, sym, ap, ◌∙◌, String, Bool, true, false, ◌==◌, Option, none, some, List, [], ◌∷◌, All-map,
  if◌then◌else◌,
}
use mathlib.Core.Path.{subst}
use ccs2_plus.Prelude.Float.{Float64}
use ccs2_plus.Prelude.Table.{Table, insert}
use ccs2_plus.RoomMap.{RoomMapping}
use ccs2_plus.Transport.{Writer}
use ccs2_plus.StateStore.{RoomState, StateStore, get, new_state_store}
use ccs2_plus.StateStore.Fresh.{Has, Has-insert, KnowsRooms, new_state_store-KnowsRooms}
use ccs2_plus.Database
use ccs2_plus.Database.{Collation, Conn, Result}
use ccs2_plus.Database.Reads.{RoomRecord, AuditRecord, bootstrap}
use ccs2_plus.Database.Seed.{open_store}
use ccs2_plus.Reports.{Location, DriveConfig, Books, on_conn}
use ccs2_plus.Server.Restore.{room_of, restore_rooms, restored, new_state_store_from_store}
use ccs2_plus.Boot.{
  AppConfig, Outside, Parts, Started, fatal, running, mappings_of, writer_of, first_state,
  new_server_with_store, serve_on, saved_config, in_location, when_opened, with_mappings, start,
}

module _ {A : Type 0} where
  Has-restore_rooms :
      (key : String) (items : List (RoomRecord A)) (rooms : Table (RoomState A))
      → Has key rooms
      → Has key (restore_rooms rooms items)
  unfolding restore_rooms
  Has-restore_rooms key [] rooms h = h
  Has-restore_rooms key (item ∷ items) rooms h =
      Has-restore_rooms key items (insert item.room_id (room_of item) rooms)
        (Has-insert item.room_id key (room_of item) rooms h)

  abbrev Knows : List RoomMapping → Started A → Type 0
  Knows mappings (fatal e) = Unit
  Knows mappings (running parts) = KnowsRooms mappings parts.server.state

module _ {A : Type 0} ⦃f : Float64 A⦄ ⦃o : Collation⦄ where
  first_state-KnowsRooms :
      (mappings : List RoomMapping) (fresh later : StateStore A)
      (r : Result (List (RoomRecord A) × List AuditRecord) × Conn A)
      → KnowsRooms mappings fresh
      → KnowsRooms mappings later
      → KnowsRooms mappings (first_state fresh (restored later r)).0
  unfolding restored get
  first_state-KnowsRooms mappings fresh later (Database.err e, c) h k = h
  first_state-KnowsRooms mappings fresh later (Database.ok (items, audits), c) h k =
      All-map (λ (m : RoomMapping). Has m.room_id later.rooms) _ mappings
        (λ m has. Has-restore_rooms m.room_id items later.rooms has) k

  serve_on-Knows :
      (cfg : AppConfig) (out : Outside) (mappings : List RoomMapping) (location : Location)
      (writer : Option Writer) (b : Books A)
      → Knows mappings (serve_on cfg out mappings location writer b)
  unfolding new_server_with_store new_state_store_from_store
  serve_on-Knows cfg out mappings location none b = tt
  serve_on-Knows cfg out mappings location (some writer) b =
      first_state-KnowsRooms mappings (new_state_store mappings out.room_clock)
        (new_state_store mappings out.later_clock) (bootstrap b.conn)
        (new_state_store-KnowsRooms A mappings out.room_clock)
        (new_state_store-KnowsRooms A mappings out.later_clock)

  saved_config-Knows :
      (cfg : AppConfig) (out : Outside) (device : Writer) (mappings : List RoomMapping)
      (location : Location) (r : Result DriveConfig × Books A)
      → Knows mappings (saved_config cfg out device mappings location r)
  saved_config-Knows cfg out device mappings location (Database.err e, b) = tt
  saved_config-Knows cfg out device mappings location (Database.ok saved, b) =
      serve_on-Knows cfg out mappings location (writer_of cfg out device) b

  in_location-Knows :
      (cfg : AppConfig) (out : Outside) (device : Writer) (mappings : List RoomMapping)
      (location : Option Location) (b : Books A)
      → Knows mappings (in_location cfg out device mappings location b)
  in_location-Knows cfg out device mappings none b = tt
  in_location-Knows cfg out device mappings (some location) b =
      by_test (cfg.google_drive_credentials == "") _ _
        (serve_on-Knows cfg out mappings location (writer_of cfg out device) b)
        (saved_config-Knows cfg out device mappings location _)
    where
      by_test :
          (t : Bool) (x y : Started A)
          → Knows mappings x
          → Knows mappings y
          → Knows mappings (if t then x else y)
      by_test true x y hx hy = hx
      by_test false x y hx hy = hy

  when_opened-Knows :
      (cfg : AppConfig) (out : Outside) (device : Writer) (mappings : List RoomMapping)
      (r : Result Unit × Books A)
      → Knows mappings (when_opened cfg out device mappings r)
  when_opened-Knows cfg out device mappings (Database.err e, b) = tt
  when_opened-Knows cfg out device mappings (Database.ok r, b) =
      in_location-Knows cfg out device mappings (out.location_of cfg.export_timezone) b

  -- A start that comes to serve has every room of its mappings in memory, also where the database
  -- cannot be read.
  pub start-KnowsRooms :
      (cfg : AppConfig) (out : Outside) (device : Writer) (b : Books A)
      (mappings : List RoomMapping) (parts : Parts A)
      → mappings_of cfg out ≡ some mappings
      → start cfg out device b ≡ running parts
      → KnowsRooms mappings parts.server.state
  unfolding start
  start-KnowsRooms cfg out device b mappings parts named runs =
      subst (Knows mappings) (sym (ap (λ m. with_mappings cfg out device m b) named) ∙ runs) (
        when_opened-Knows cfg out device mappings
          (on_conn (open_store out.db_dir_made out.db_opened mappings out.opened_at) b))
