-- ===== src/Legacy/Relays.antt =====
-- `SetPortStatus` switches the relay of one port and leaves the others alone.
use Prim.Native.Nat.{bit_or}
use native.Mathlib.Decide.{dec_lt}
use native.Mathlib.Nat.{mod-eq_of_lt, pow-le-pow_right}
use ccs2_plus.Prelude.{ℕ, ◌-◌, ◌%◌, ◌^◌, ◌≤◌, ◌<◌, ◌≡◌, ◌↔◌, refl, arith, leb, eqb, if◌then◌else◌}
use ccs2_plus.Prelude.Int.{ℤ, pos, negsuc}
use ccs2_plus.Prelude.Bits.{
  bit, bit-bit_or, bit-bit_and, bit-pow, bit-complement, bit_or-lt, bit_and-lt, bit-lt, bit_above,
}
use ccs2_plus.Legacy.{SlavePayload, ok, set_port_status, and_not, status_overstay}

-- A `uint16` bitmask.
abbrev pub IsPayload : SlavePayload → Type 0
IsPayload p = p.bitmask < 2 ^ 16

-- The relay of a port: 1 is on.
abbrev pub relay : SlavePayload → ℕ → ℕ
relay p port = bit p.bitmask port

-- The relay that an accepted status asks for: off for 0 and 1, on for 2, 3 and 4.
abbrev pub relay_of : ℕ → ℕ
relay_of status = if leb 2 status then 1 else 0

mask-lt : (port : ℕ) → port < 16 → 2 ^ port < 2 ^ 16
mask-lt port h =
    omega (arith, pow-le-pow_right {n = 2} (omega arith) {i = port} {j = 15} (omega arith))

mask_lem : (port : ℕ) → port < 16 → 2 ^ port % 2 ^ 16 ≡ 2 ^ port
mask_lem port h = mod-eq_of_lt (mask-lt port h)

and_not-lt : (m mask : ℕ) → m < 2 ^ 16 → mask < 2 ^ 16 → and_not m mask < 2 ^ 16
and_not-lt m mask p q = bit_and-lt 16 m (2 ^ 16 - 1 - mask) p (omega arith)

bit-and_not :
    (m port j : ℕ)
    → m < 2 ^ 16
    → port < 16
    → bit (and_not m (2 ^ port)) j ≡ (if eqb port j then 0 else bit m j)
bit-and_not m port j h p = elim (dec_lt j 16) [
  | yes q ↦ ground (
    arith,
    bit-bit_and m (2 ^ 16 - 1 - 2 ^ port) j,
    bit-complement 16 (2 ^ port) j (mask-lt port p) q,
    bit-pow port j,
    bit-lt m j,
  )
  | no q ↦ ground (arith, bit-bit_and m (2 ^ 16 - 1 - 2 ^ port) j, bit_above 16 m j h (omega arith))
]

bit-or_mask : (m port j : ℕ) → bit (bit_or m (2 ^ port)) j ≡ (if eqb port j then 1 else bit m j)
bit-or_mask m port j = ground (arith, bit-bit_or m (2 ^ port) j, bit-pow port j, bit-lt m j)

accepted_range :
    (p : SlavePayload) (port status : ℕ) (q : SlavePayload)
    → set_port_status p (pos port) status ≡ ok q
    → (port < 16) × (status ≤ status_overstay)
unfolding set_port_status
accepted_range p port status q e = ground arith

accepted_bits :
    (p : SlavePayload) (port status : ℕ) (q : SlavePayload)
    → port < 16
    → set_port_status p (pos port) status ≡ ok q
    → q.bitmask
      ≡ (if leb 2 status then bit_or p.bitmask (2 ^ port) else and_not p.bitmask (2 ^ port))
unfolding set_port_status
accepted_bits p port status q h e = ground (arith, mask_lem port h)

-- The payload after an accepted status.
abbrev switched : SlavePayload → ℕ → ℕ → SlavePayload
switched p port status = record {
  bitmask = if leb 2 status then bit_or p.bitmask (2 ^ port) else and_not p.bitmask (2 ^ port);
}

accepts :
    (p : SlavePayload) (port status : ℕ)
    → port < 16
    → status ≤ status_overstay
    → set_port_status p (pos port) status ≡ ok (switched p port status)
unfolding set_port_status
accepts p port status h k = ground (arith, mask_lem port h)

-- Where `SetPortStatus` accepts a status on a `uint16`, the port is one of the card's 16 and the status is at
-- most 4; the payload stays a `uint16`, the relay of that port is on exactly for the statuses
-- from 2 up, and the relay of every other port is as it was.
pub set_port_status-relays :
    (p : SlavePayload) (port status : ℕ) (q : SlavePayload) (j : ℕ)
    → IsPayload p
    → set_port_status p (pos port) status ≡ ok q
    → (port < 16)
      × (status ≤ status_overstay)
      × IsPayload q
      × (relay q j ≡ (if eqb port j then relay_of status else relay p j))
set_port_status-relays p port status q j h e =
    let (on_card, known) = accepted_range p port status q e in
    let bits = accepted_bits p port status q on_card e in
    (
      on_card,
      known,
      rw bits (
          ground (
            arith,
            bit_or-lt 16 p.bitmask (2 ^ port) h (mask-lt port on_card),
            and_not-lt p.bitmask (2 ^ port) h (mask-lt port on_card),
          )),
      rw bits
          (ground (arith, bit-and_not p.bitmask port j h on_card, bit-or_mask p.bitmask port j)),
    )

-- `SetPortStatus` accepts exactly the ports from 0 to 15 with the statuses from 0 to 4.
pub set_port_status-accepts :
    (p : SlavePayload) (port : ℤ) (status : ℕ)
    → ((q : SlavePayload) × (set_port_status p port status ≡ ok q))
      ↔ ((n : ℕ) × (port ≡ pos n) × (n < 16) × (status ≤ status_overstay))
unfolding set_port_status
set_port_status-accepts p (negsuc n) status = (λ h. cc h.1, λ h. cc h.1)
set_port_status-accepts p (pos n) status = (
  λ h. let (on_card, known) = accepted_range p n status h.0 h.1 in (n, refl, on_card, known),
  λ h. (switched p n status, ground (arith, accepts p n status)),
)
