-- ===== src/Transport/Serial.antt =====
-- go-backend/internal/transport/serial_writer_linux.go: the device that a frame is written to. What the
-- calls of the system come to is given, and so is whether the context has ended.
use Prim.Native.Nat.{bit_or, bit_and, ◌-◌}
use ccs2_plus.Prelude.{
  ℕ, ◌≡◌, refl, Bool, true, false, not, ◌&&◌, Option, none, some, List, [], ◌∷◌, ◌++◌, ltb, eqb,
  Bool-cases, inl, inr, if◌then◌else◌,
}
use ccs2_plus.Prelude.Int.{ℤ, pos, negsuc}
use ccs2_plus.Transport.{
  Outcome, written, refused, interrupted, write_frame, write_outcome, next_outcome,
}

-- `baudToUnix`: the constants B1200 to B38400 of Linux.
unfoldable pub baud_to_unix : ℤ → Option ℕ
baud_to_unix (negsuc n) = none
baud_to_unix (pos n) =
    if eqb n 1200
    then some 0x9
    else if eqb n 2400
    then some 0xb
    else if eqb n 4800
    then some 0xc
    else if eqb n 9600
    then some 0xd
    else if eqb n 19200
    then some 0xe
    else if eqb n 38400
    then some 0xf
    else none

-- `syscall.Termios`, less the fields that the code does not set.
pub record Termios : Type 0 where
  pub iflag : ℕ
  pub oflag : ℕ
  pub lflag : ℕ
  pub cflag : ℕ
  pub vmin : ℕ
  pub vtime : ℕ
  pub ispeed : ℕ
  pub ospeed : ℕ

-- `PARENB | CSTOPB | CSIZE | CRTSCTS`, and `CS8 | CREAD | CLOCAL`.
abbrev pub cleared : ℕ
cleared = 0x80000170

abbrev pub set_flags : ℕ
set_flags = 0x8b0

-- `a &^ b` of `uint32` values.
abbrev pub clear_bits : ℕ → ℕ → ℕ
clear_bits a b = bit_and a (0xffffffff - b)

unfoldable pub configured_termios : Termios → ℕ → Termios
configured_termios t speed = record {
  iflag = 0;
  oflag = 0;
  lflag = 0;
  cflag = bit_or (clear_bits t.cflag cleared) set_flags;
  vmin = 1;
  vtime = 0;
  ispeed = speed;
  ospeed = speed;
}

-- `configureSerial`: `none` of the first argument is an error of TCGETS, and `taken` says of TCSETS
-- whether it succeeds.
unfoldable pub configure_serial : Option Termios → (Termios → Bool) → ℤ → Option Termios
configure_serial none taken baud_rate = none
configure_serial (some t) taken baud_rate = elim (baud_to_unix baud_rate) [
  | none ↦ none
  | some speed ↦
      if taken (configured_termios t speed) then some (configured_termios t speed) else none
]

-- One call of `WriteFrame`: whether the context has ended before it, whether the device takes the
-- frame, and whether the context ends in the delay.
pub record SerialCall : Type 0 where
  pub done_before : Bool
  pub taken : Bool
  pub done_after : Bool

-- `WriteFrame` with a delay in nanoseconds: the result, and the frames that the device has.
unfoldable pub serial_write_frame : ℕ → SerialCall → List ℕ → List (List ℕ) → Bool × List (List ℕ)
serial_write_frame write_delay call frame frames =
    if call.done_before
    then (false, frames)
    else if not call.taken
    then (false, frames)
    else if ltb 0 write_delay && call.done_after
    then (false, frames ++ frame ∷ [])
    else (true, frames ++ frame ∷ [])

abbrev pub outcome_of : ℕ → SerialCall → Outcome
outcome_of write_delay call =
    if call.done_before
    then refused
    else if not call.taken
    then refused
    else if ltb 0 write_delay && call.done_after
    then interrupted
    else written

-- A call of the serial writer does to the frames of the device what the writer of the service does
-- with the outcome that the call comes to.
pub serial_write_frame-outcome :
    (write_delay : ℕ) (call : SerialCall) (frame : List ℕ) (frames : List (List ℕ))
    (later : List Outcome)
    → write_frame frame (record { frames = frames; outcomes = outcome_of write_delay call ∷ later })
      ≡ (
        (serial_write_frame write_delay call frame frames).0,
        record { frames = (serial_write_frame write_delay call frame frames).1; outcomes = later },
      )
unfolding write_frame serial_write_frame write_outcome next_outcome
serial_write_frame-outcome write_delay call frame frames later =
    elim (Bool-cases call.done_before) [
      | inl e ↦ rw e refl
      | inr e ↦ rw e (elim (Bool-cases call.taken) [
        | inr fails ↦ rw fails refl
        | inl took ↦ rw took (elim (Bool-cases (ltb 0 write_delay && call.done_after)) [
          | inl ended ↦ rw ended refl
          | inr goes ↦ rw goes refl
        ])
      ])
    ]
