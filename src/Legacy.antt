-- ===== src/Legacy.antt =====
-- go-backend/internal/legacy: the relay payload of a slave card, the frames on the RS-485 bus and
-- the mapping of room states to the legacy protocol. A byte is a number below 256, a `uint16` one
-- below 2 ^ 16.
pub mod Relays
pub mod Frames
use Prim.Native.Nat.{bit_and, bit_or}
use ccs2_plus.Prelude.{
  ℕ, ◌+◌, ◌-◌, ◌*◌, ◌/◌, ◌%◌, ◌^◌, String, Bool, true, false, ◌&&◌, ◌||◌, Option, none, some, List,
  [], ◌∷◌, ltb, leb, eqb, ◌==◌, if◌then◌else◌,
}
use ccs2_plus.Prelude.Int.{ℤ, pos, negsuc}

-- `RoomStatus`, a byte.
abbrev pub status_none : ℕ
status_none = 0

abbrev pub status_vacant : ℕ
status_vacant = 1

abbrev pub status_occupied : ℕ
status_occupied = 2

abbrev pub status_cleaning : ℕ
status_cleaning = 3

abbrev pub status_overstay : ℕ
status_overstay = 4

-- `DisplayMode`, a byte.
abbrev pub display_off : ℕ
display_off = 0

abbrev pub display_slow_blink : ℕ
display_slow_blink = 1

abbrev pub display_fast_blink : ℕ
display_fast_blink = 2

abbrev pub display_on : ℕ
display_on = 3

-- `SemanticState`, a string type with four named values.
abbrev pub SemanticState : Type 0
SemanticState = String

abbrev pub semantic_vacant : SemanticState
semantic_vacant = "vacant"

abbrev pub semantic_occupied : SemanticState
semantic_occupied = "occupied"

abbrev pub semantic_cleaning : SemanticState
semantic_cleaning = "cleaning"

abbrev pub semantic_overstay : SemanticState
semantic_overstay = "overstay"

-- `none` is the third result `false`.
unfoldable pub semantic_to_legacy : SemanticState → Option (ℕ × ℕ)
semantic_to_legacy state =
    if state == semantic_vacant
    then some (status_vacant, display_off)
    else if state == semantic_occupied
    then some (status_occupied, display_on)
    else if state == semantic_cleaning
    then some (status_cleaning, display_on)
    else if state == semantic_overstay
    then some (status_overstay, display_on)
    else none

pub record SlavePayload : Type 0 where
  pub bitmask : ℕ

unfoldable pub empty_payload : SlavePayload
empty_payload = record { bitmask = 0 }

pub data PayloadError : Type 0 where
  invalid_port : ℤ → PayloadError
  invalid_status unsupported_status : ℕ → PayloadError

pub data PayloadResult : Type 0 where
  ok : SlavePayload → PayloadResult
  err : PayloadError → PayloadResult

-- `m &^ mask` on `uint16`.
abbrev pub and_not : ℕ → ℕ → ℕ
and_not m mask = bit_and m (2 ^ 16 - 1 - mask)

-- The part of `SetPortStatus` after the check of the port.
set_status : SlavePayload → ℕ → ℕ → PayloadResult
set_status p port status =
    let mask = 2 ^ port % 2 ^ 16 in
    if ltb 0x0f status
    then err (invalid_status status)
    else if leb status_occupied status && leb status status_overstay
    then ok (record { bitmask = bit_or p.bitmask mask })
    else if eqb status status_vacant || eqb status status_none
    then ok (record { bitmask = and_not p.bitmask mask })
    else err (unsupported_status status)

-- The method changes the payload behind its pointer; here it returns the new one.
unfoldable pub set_port_status : SlavePayload → ℤ → ℕ → PayloadResult
unfolding set_status
set_port_status p (negsuc n) status = err (invalid_port (negsuc n))
set_port_status p (pos n) status =
    if ltb 15 n then err (invalid_port (pos n)) else set_status p n status

unfoldable pub low_byte : SlavePayload → ℕ
low_byte p = bit_and p.bitmask 0x00ff % 256

unfoldable pub high_byte : SlavePayload → ℕ
high_byte p = bit_and (p.bitmask / 2 ^ 8) 0x00ff % 256

-- `byte(n)` of a Go `int`.
abbrev pub byte : ℤ → ℕ
byte (pos n) = n % 256
byte (negsuc n) = 255 - n % 256

abbrev add_index : ℕ → ℤ → ℤ
add_index base (pos n) = pos (base + n)
add_index base (negsuc n) = if ltb n base then pos (base - n - 1) else negsuc (n - base)

-- `byte(int(cardIndex)*16 + portIndex)`; the sum does not reach the limits of `int` where the port
-- is an `int` that `SetPortStatus` has let through.
unfoldable pub port_ref : ℕ → ℤ → ℕ
port_ref card_index port_index = byte (add_index (card_index * 16) port_index)

sum_bytes : ℕ → List ℕ → ℕ
sum_bytes sum [] = sum
sum_bytes sum (b ∷ frame) = sum_bytes ((sum + b) % 256) frame

-- `^sum + 1` on a byte.
unfoldable pub checksum : List ℕ → ℕ
unfolding sum_bytes
checksum frame = (255 - sum_bytes 0 frame + 1) % 256

unfoldable pub build_slave_frame : ℕ → SlavePayload → List ℕ
build_slave_frame address payload =
    let low = low_byte payload in
    let high = high_byte payload in
    b':' ∷ address ∷ low ∷ high ∷ checksum (b':' ∷ address ∷ low ∷ high ∷ []) ∷ []

unfoldable pub build_display_frame : ℕ → ℤ → ℕ → List ℕ
build_display_frame card_index port_index mode =
    b':' ∷ 0xfe ∷ port_ref card_index port_index ∷ mode ∷ []
