-- ===== src/Legacy/Frames.antt =====
-- The bytes of the frames: checksum, payload bytes and port reference.
use native.Mathlib.Decide.{dec_lt}
use ccs2_plus.Prelude.{
  ℕ, ◌+◌, ◌*◌, ◌/◌, ◌%◌, ◌^◌, ◌<◌, ◌≡◌, List, [], ◌∷◌, arith, eqb, Option, some, none, ◌&&◌,
  if◌then◌else◌, All,
}
use Prim.Native.Nat.{bit_and}
use ccs2_plus.Prelude.Int.{ℤ, pos, negsuc}
use ccs2_plus.Prelude.Bits.{
  bit-bit_and, bit-complement, bit-mod, bit-lt, bit-zero, eq_of_bits, bit_and-lt, bit_above,
}
use ccs2_plus.Legacy.{
  SlavePayload, low_byte, high_byte, port_ref, sum_bytes, checksum, build_slave_frame,
  build_display_frame,
}
use ccs2_plus.Legacy.Relays.{IsPayload}

-- The sum of the bytes of a frame, as a plain number.
abbrev pub total : List ℕ → ℕ
total [] = 0
total (b ∷ bs) = b + total bs

abbrev pub IsByte : ℕ → Type 0
IsByte b = b < 256

sum_bytes-mod :
    (sum : ℕ) (frame : List ℕ) → sum < 256 → sum_bytes sum frame ≡ (sum + total frame) % 256
unfolding sum_bytes
sum_bytes-mod sum [] h = omega arith
sum_bytes-mod sum (b ∷ frame) h = omega (arith, sum_bytes-mod ((sum + b) % 256) frame (omega arith))

checksum-total : (frame : List ℕ) → (total frame + checksum frame) % 256 ≡ 0
unfolding checksum
checksum-total frame = omega (arith, sum_bytes-mod 0 frame (omega arith))

-- A mask of eight ones is the remainder by 256.
mask_byte : (a : ℕ) → a < 2 ^ 16 → bit_and a 0x00ff ≡ a % 256
mask_byte a h = eq_of_bits 16 _ _ (bit_and-lt 16 a 255 h (omega arith)) (omega arith) λ j lt.
    elim (dec_lt j 8) [
      | yes low ↦ omega (
        arith,
        bit-bit_and a 255 j,
        bit-complement 8 0 j (omega arith) low,
        bit-zero j,
        bit-mod 8 a j low,
        bit-lt a j,
      )
      | no high ↦ omega (
        arith,
        bit-bit_and a 255 j,
        bit_above 8 255 j (omega arith) (omega arith),
        bit_above 8 (a % 256) j (omega arith) (omega arith),
      )
    ]

low_byte_lem : (p : SlavePayload) → IsPayload p → low_byte p ≡ p.bitmask % 256
unfolding low_byte
low_byte_lem p h = omega (arith, mask_byte p.bitmask h)

high_byte_lem : (p : SlavePayload) → IsPayload p → high_byte p ≡ p.bitmask / 256
unfolding high_byte
high_byte_lem p h = omega (arith, mask_byte (p.bitmask / 256) (omega arith))

-- On a card and a port below 16 the port reference holds the card in its high digit and the port
-- in its low one.
pub port_ref_fields :
    (card port : ℕ)
    → card < 16
    → port < 16
    → (port_ref card (pos port) / 16 ≡ card) × (port_ref card (pos port) % 16 ≡ port)
unfolding port_ref
port_ref_fields card port h k = omega arith

-- A slave frame as a card reads it: the colon, an address, the two payload bytes and a last byte
-- which brings the sum of all to 0. The result is the address and the 16 relays.
abbrev pub read_slave_frame : List ℕ → Option (ℕ × ℕ)
read_slave_frame (start ∷ address ∷ low ∷ high ∷ check ∷ []) =
    if eqb start b':' && eqb (total (start ∷ address ∷ low ∷ high ∷ check ∷ []) % 256) 0
    then some (address, low + 256 * high)
    else none
read_slave_frame _ = none

-- Every slave frame that the program builds passes the checksum test of the card, and the card reads
-- off it the address and the whole bitmask, for every payload that is a `uint16`.
pub read-build_slave_frame :
    (address : ℕ) (p : SlavePayload)
    → IsPayload p
    → read_slave_frame (build_slave_frame address p) ≡ some (address, p.bitmask)
unfolding build_slave_frame
read-build_slave_frame address p h = ground (
  arith,
  checksum-total (b':' ∷ address ∷ low_byte p ∷ high_byte p ∷ []),
  low_byte_lem p h,
  high_byte_lem p h,
)

-- All bytes of the two frames are bytes, where the address and the mode are.
pub frames_bytes :
    (address : ℕ) (p : SlavePayload) (card : ℕ) (port : ℤ) (mode : ℕ)
    → IsByte address
    → IsByte mode
    → All IsByte (build_slave_frame address p) × All IsByte (build_display_frame card port mode)
unfolding build_slave_frame build_display_frame low_byte high_byte port_ref checksum
frames_bytes address p card (pos n) mode h k = omega arith
frames_bytes address p card (negsuc n) mode h k = ground arith
