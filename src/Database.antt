-- ===== src/Database.antt =====
-- The tables of go-backend/internal/store/store.go, the connection that the store works on, and
-- `withTx`. A text column with a time holds what `Format(time.RFC3339)` writes, which names a second,
-- or some other text. The columns `display_enabled` and `remark` of `rooms`, which are never read or
-- written, are left out; the tables of the reports and the settings are in Reports.antt.
pub mod Statements
pub mod Tables
pub mod Record
pub mod Atomic
pub mod Steps
pub mod Effects
pub mod Keys
pub mod Integrity
pub mod Runs
pub mod Active
pub mod Reads
pub mod Seed
use ccs2_plus.Prelude.{
  ℕ, ◌+◌, ◌-◌, ◌*◌, ◌/◌, ◌^◌, ◌≡◌, String, Bool, true, false, Option, none, some, List, [], ◌∷◌,
  ltb, eqb, if◌then◌else◌, is_blank,
}
use ccs2_plus.Prelude.Int.{ℤ, pos, negsuc}

-- A `time.Time` is a count of nanoseconds since the zero time, 1 January of year 1.
abbrev pub Time : Type 0
Time = ℕ

pub data TimeText : Type 0 where
  rfc3339 : ℕ → TimeText
  other : String → TimeText

abbrev pub second : ℕ
second = 10 ^ 9

-- `t.Format(time.RFC3339)`.
abbrev pub format : Time → TimeText
format t = rfc3339 (t / second)

-- `time.Parse(time.RFC3339, text)`.
abbrev pub parse : TimeText → Option Time
parse (rfc3339 s) = some (s * second)
parse (other text) = none

-- `strings.TrimSpace(text) == ""`.
abbrev pub is_blank_text : TimeText → Bool
is_blank_text (rfc3339 s) = false
is_blank_text (other text) = is_blank text

-- SQLite's order of the stored texts. The texts that the program writes are of one zone, and of
-- years with four digits: they come in the order of their seconds.
pub record Collation : Type 0 where
  pub before : TimeText → TimeText → Bool
  pub before-rfc3339 : (a b : ℕ) → before (rfc3339 a) (rfc3339 b) ≡ ltb a b

pub record RoomRow (A : Type 0) : Type 0 where
  pub room_id : String
  pub floor : ℤ
  pub controller_id : String
  pub rs485_address : ℕ
  pub card_index : ℕ
  pub port_index : ℤ
  pub status : String
  pub stay_mode : String
  pub case_code : String
  pub controller_online : ℤ
  pub remaining_minutes : ℤ
  pub last_payment_amount : A
  pub last_payment_method : String
  pub last_payment_ref : String
  pub updated_at : TimeText

pub record StayRow (A : Type 0) : Type 0 where
  pub stay_id : String
  pub request_id : String
  pub room_id : String
  pub stay_mode : String
  pub case_code : String
  pub status : String
  pub guest_in_at : Option TimeText
  pub guest_out_at : Option TimeText
  pub clean_up_at : Option TimeText
  pub allocated_minutes : ℤ
  pub used_minutes : ℤ
  pub payment_amount : A
  pub payment_ref : String
  pub remark : String
  pub last_updated_at : TimeText

pub record PaymentRow (A : Type 0) : Type 0 where
  pub payment_id : String
  pub request_id : String
  pub stay_id : String
  pub room_id : String
  pub amount : A
  pub method : String
  pub reference : String
  pub paid_at : TimeText

pub record AuditRow : Type 0 where
  pub event_id : String
  pub room_id : String
  pub action : String
  pub actor : String
  pub result : String
  pub stay_mode : String
  pub case_code : String
  pub detail : String
  pub event_time : TimeText

pub record Db (A : Type 0) : Type 0 where
  pub rooms : List (RoomRow A)
  pub stays : List (StayRow A)
  pub payments : List (PaymentRow A)
  pub audit_events : List AuditRow

pub data Cause : Type 0 where
  io unique_violation foreign_key_violation no_rows bad_time bad_json tx_done : Cause

-- An error with the text that `fmt.Errorf` puts before it.
pub record StoreError : Type 0 where
  pub context : String
  pub cause : Cause

pub data Result (R : Type 0) : Type 0 where
  ok : R → Result R
  err : StoreError → Result R

-- The connection: what is committed, the working copy of an open transaction, and what becomes of the
-- next calls of the driver, where `true` is a failure; where the list has run out, calls succeed.
pub record Conn (A : Type 0) : Type 0 where
  pub committed : Db A
  pub pending : Option (Db A)
  pub faults : List Bool

abbrev pub Action : Type 0 → Type 0 → Type 0
Action A R = Conn A → Result R × Conn A

module _ {A : Type 0} where
  pub pure : {R : Type 0} → R → Action A R
  pure r c = (ok r, c)

  pub raise : {R : Type 0} → StoreError → Action A R
  raise e c = (err e, c)

  abbrev pub continue : {R S : Type 0} → Result R → (R → Action A S) → Action A S
  continue (ok r) f c = f r c
  continue (err e) f c = (err e, c)

  infixl 5 ◌>>=◌ ◌>>◌
  unfoldable pub ◌>>=◌ : {R S : Type 0} → Action A R → (R → Action A S) → Action A S
  unfolding pure raise
  ◌>>=◌ m f c = let (r, c') = m c in continue r f c'

  abbrev pub ◌>>◌ : {R S : Type 0} → Action A R → Action A S → Action A S
  m >> k = m >>= λ _. k

-- What an SQL statement makes of the tables: a result and the tables after it, or a refusal.
pub data Outcome (A : Type 0) (R : Type 0) : Type 0 where
  done : R → Db A → Outcome A R
  failed : Cause → Outcome A R

-- Whether the next call of the driver fails.
abbrev pub next_fault : List Bool → Bool
next_fault [] = false
next_fault (b ∷ faults) = b

abbrev pub later_faults : List Bool → List Bool
later_faults [] = []
later_faults (b ∷ faults) = faults

module _ {A : Type 0} where
  abbrev pub drawn : Conn A → Conn A
  drawn c = record c { faults = later_faults c.faults }

  abbrev pub settle : {R : Type 0} → String → Conn A → Outcome A R → Result R × Conn A
  settle context c (done r db) = (ok r, record c { pending = some db })
  settle context c (failed cause) = (err (record { context = context; cause = cause }), c)

  abbrev pub on_pending :
      {R : Type 0} → String → (Db A → Outcome A R) → Conn A → Option (Db A) → Result R × Conn A
  on_pending context sql c none = (err (record { context = context; cause = tx_done }), c)
  on_pending context sql c (some db) = settle context c (sql db)

  -- `tx.Exec`, or `tx.QueryRow` with `Scan`, with the error wrapped as the caller wraps it.
  unfoldable pub statement : {R : Type 0} → String → (Db A → Outcome A R) → Action A R
  statement context sql c =
      if next_fault c.faults
      then (err (record { context = context; cause = io }), drawn c)
      else on_pending context sql (drawn c) c.pending

  -- `s.db.BeginTx`.
  begin_tx : String → Action A Unit
  begin_tx context c =
      if next_fault c.faults
      then (err (record { context = context; cause = io }), drawn c)
      else (ok tt, record (drawn c) { pending = some c.committed })

  -- `tx.Rollback`, whose error the code drops; the transaction is over all the same.
  rollback : Conn A → Conn A
  rollback c = record c { pending = none }

  -- `tx.Commit`; after an error the transaction is over, with nothing committed.
  commit : String → Conn A → Result Unit × Conn A
  commit context c =
      if next_fault c.faults
      then (err (record { context = context; cause = io }), record (drawn c) { pending = none })
      else (
        ok tt,
        record (drawn c) {
          committed = elim c.pending [ none ↦ c.committed | some db ↦ db ];
          pending = none;
        },
      )

  -- A transaction after its function has returned.
  close_tx : String → Result Unit × Conn A → Result Unit × Conn A
  unfolding rollback commit
  close_tx context (ok r, c) = commit context c
  close_tx context (err e, c) = (err e, rollback c)

  run_tx : String → Action A Unit → Result Unit × Conn A → Result Unit × Conn A
  unfolding close_tx
  run_tx context fn (ok r, c) = close_tx context (fn c)
  run_tx context fn (err e, c) = (err e, c)

  -- A transaction, with what its caller puts before an error of its start and of its end.
  unfoldable pub transaction : String → String → Action A Unit → Action A Unit
  unfolding begin_tx run_tx
  transaction starting ending fn c = run_tx ending fn (begin_tx starting c)

  unfoldable pub with_tx : Action A Unit → Action A Unit
  with_tx fn = transaction "begin sqlite tx" "commit sqlite tx" fn
