-- ===== src/StateStore.antt =====
-- The state in memory of go-backend/internal/httpapi/server.go (`stateStore`) and what events.go
-- reads off it: the rooms by their id, the last audit events, alerts, summaries and snapshots. Every
-- method holds the mutex from its first read to its last write, so each is one step.
pub mod Audit
pub mod Views
pub mod Frame
pub mod Alerts
pub mod Summary
pub mod History
pub mod Fresh
use Prim.Native.Char.{code}
use Prim.Native.String.{compare}
use Prim.Native.Nat.{Ordering}
use mathlib.Core.List.{filter_map}
use ccs2_plus.Prelude.{
  ℕ, zero, suc, ◌+◌, ◌-◌, ◌*◌, ◌/◌, ◌%◌, String, append, Bool, true, false, not, ◌&&◌, ◌||◌, Option,
  none, some, List, [], ◌∷◌, ◌++◌, map, ltb, leb, ◌==◌, if◌then◌else◌, length, take, keep, decimal,
}
use ccs2_plus.Prelude.Int.{ℤ, pos, negsuc, ◌+ℤ◌, ◌*ℤ◌, ltb_ℤ, wrap}
use ccs2_plus.Prelude.Float.{Float64}
use ccs2_plus.Prelude.Table.{Table, lookup, insert}
use ccs2_plus.RoomMap.{RoomMapping}

pub record RoomState (A : Type 0) : Type 0 where
  pub room_id : String
  pub floor : ℤ
  pub status : String
  pub stay_mode : String
  pub case_code : String
  pub controller_online : Bool
  pub remaining_minutes : ℤ
  pub last_payment_amount : A
  pub last_payment_method : String
  pub last_payment_ref : String
  pub updated_at : ℕ

pub record RoomSnapshot : Type 0 where
  pub room_id : String
  pub floor : ℤ
  pub status : String
  pub stay_mode : String
  pub case_code : String
  pub controller_online : Bool
  pub remaining_minutes : Option ℤ

pub record AuditEvent : Type 0 where
  pub id : String
  pub timestamp : ℕ
  pub room_id : String
  pub action : String
  pub actor : String
  pub result : String
  pub stay_mode : String
  pub case_code : String
  pub detail : String

pub record AlertItem : Type 0 where
  pub id : String
  pub timestamp : ℕ
  pub room_id : String
  pub severity : String
  pub rule_code : String
  pub status : String
  pub title : String
  pub detail : String

pub record StateStore (A : Type 0) : Type 0 where
  pub rooms : Table (RoomState A)
  pub audit : List AuditEvent
  pub next_audit : ℕ

-- The first byte of a character in UTF-8.
abbrev lead_byte : ℕ → ℕ
lead_byte c =
    if ltb c 0x80
    then c
    else if ltb c 0x800
    then 0xc0 + c / 64
    else if ltb c 0x10000
    then 0xe0 + c / 4096
    else 0xf0 + c / 262144

-- `int(roomID[0] - '0')`, a difference of bytes; the store has the same function.
unfoldable pub floor_from_room_id : String → ℤ
floor_from_room_id String.[] = pos 0
floor_from_room_id (String.◌∷◌ c s) = pos ((lead_byte (code c) + 256 - b'0') % 256)

unfoldable pub default_minutes_for_stay_mode : String → ℤ
default_minutes_for_stay_mode stay_mode =
    if stay_mode == "temporary"
    then pos 120
    else if stay_mode == "monthly"
    then pos 43200
    else if stay_mode == "yearly"
    then pos 525600
    else pos 720

unfoldable pub max_int : ℤ → ℤ → ℤ
max_int a b = if ltb_ℤ b a then a else b

-- The minutes of a check-in, computed by the handler for the database and by `applyCheckIn`.
abbrev pub check_in_minutes : ℤ → String → ℤ
check_in_minutes stay_hours stay_mode =
    max_int (wrap (stay_hours *ℤ pos 60)) (default_minutes_for_stay_mode stay_mode)

module _ {A : Type 0} where
  unfoldable pub get : StateStore A → String → Option (RoomState A)
  get s room_id = lookup room_id s.rooms

  -- `item, ok := s.rooms[id]; if !ok { return }; …; s.rooms[id] = item`, the frame of every update.
  update_room : String → (RoomState A → RoomState A) → StateStore A → StateStore A
  update_room room_id change s = elim (lookup room_id s.rooms) [
    | none ↦ s
    | some item ↦ record s { rooms = insert room_id (change item) s.rooms }
  ]

  abbrev pub vacated : ℕ → RoomState A → RoomState A
  vacated now item = record item {
    status = "vacant";
    stay_mode = "";
    case_code = "";
    remaining_minutes = pos 0;
    updated_at = now;
  }

  unfoldable pub apply_check_out : String → ℕ → StateStore A → StateStore A
  unfolding update_room
  apply_check_out room_id now = update_room room_id (vacated now)

  abbrev pub commanded : String → ℕ → RoomState A → RoomState A
  commanded action now item =
      if action == "start_cleaning"
      then record item { status = "cleaning"; updated_at = now }
      else if action == "finish_cleaning"
      then vacated now item
      else record item { updated_at = now }

  unfoldable pub apply_command : String → String → ℕ → StateStore A → StateStore A
  unfolding update_room
  apply_command room_id action now = update_room room_id (commanded action now)

  abbrev pub paid_by : A → String → String → ℕ → RoomState A → RoomState A
  paid_by amount method ref now item = record item {
    last_payment_amount = amount;
    last_payment_method = method;
    last_payment_ref = ref;
    updated_at = now;
  }

  unfoldable pub apply_payment : String → A → String → String → ℕ → StateStore A → StateStore A
  unfolding update_room
  apply_payment room_id amount method ref now = update_room room_id (paid_by amount method ref now)

module _ {A : Type 0} ⦃f : Float64 A⦄ where
  open f use {nought, is_pos}

  -- The state of a mapped room at the start.
  abbrev pub fresh_room : RoomMapping → ℕ → RoomState A
  fresh_room m now = record {
    room_id = m.room_id;
    floor = floor_from_room_id m.room_id;
    status = "vacant";
    stay_mode = "";
    case_code = "";
    controller_online = true;
    remaining_minutes = pos 0;
    last_payment_amount = nought;
    last_payment_method = "";
    last_payment_ref = "";
    updated_at = now;
  }

  -- The loop of `newStateStore`; the clock is read once in each round.
  fill_rooms : Table (RoomState A) → List RoomMapping → (ℕ → ℕ) → ℕ → Table (RoomState A)
  fill_rooms rooms [] clock i = rooms
  fill_rooms rooms (m ∷ mappings) clock i =
      fill_rooms (insert m.room_id (fresh_room m (clock i)) rooms) mappings clock (i + 1)

  unfoldable pub new_state_store : List RoomMapping → (ℕ → ℕ) → StateStore A
  unfolding fill_rooms
  new_state_store mappings clock = record {
    rooms = fill_rooms [] mappings clock 0;
    audit = [];
    next_audit = 0;
  }

  abbrev pub checked_in : String → String → ℤ → A → String → ℕ → RoomState A → RoomState A
  checked_in stay_mode case_code stay_hours amount ref now item =
      let paid = is_pos amount in
      record item {
        status = "occupied";
        stay_mode = stay_mode;
        case_code = case_code;
        remaining_minutes = check_in_minutes stay_hours stay_mode;
        last_payment_amount = if paid then amount else item.last_payment_amount;
        last_payment_ref = if paid then ref else item.last_payment_ref;
        last_payment_method = if paid then "check_in" else item.last_payment_method;
        updated_at = now;
      }

  unfoldable pub apply_check_in :
      String → String → String → ℤ → A → String → ℕ → StateStore A → StateStore A
  unfolding update_room
  apply_check_in room_id stay_mode case_code stay_hours amount ref now =
      update_room room_id (checked_in stay_mode case_code stay_hours amount ref now)

  abbrev pub extended : String → String → ℤ → A → String → ℕ → RoomState A → RoomState A
  extended stay_mode case_code extend_minutes amount ref now item =
      let paid = is_pos amount in
      record item {
        status = "occupied";
        stay_mode = if stay_mode == "" then item.stay_mode else stay_mode;
        case_code = if case_code == "" then item.case_code else case_code;
        remaining_minutes = wrap (item.remaining_minutes +ℤ extend_minutes);
        last_payment_amount = if paid then amount else item.last_payment_amount;
        last_payment_ref = if paid then ref else item.last_payment_ref;
        last_payment_method = if paid then "extend" else item.last_payment_method;
        updated_at = now;
      }

  unfoldable pub apply_extend :
      String → String → String → ℤ → A → String → ℕ → StateStore A → StateStore A
  unfolding update_room
  apply_extend room_id stay_mode case_code extend_minutes amount ref now =
      update_room room_id (extended stay_mode case_code extend_minutes amount ref now)
