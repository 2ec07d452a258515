-- ===== src/Database/Runs.antt =====
-- Any list of calls of the store, whatever fails in them.
use ccs2_plus.Prelude.{◌≡◌, refl, sym, none, List, [], ◌∷◌}
use mathlib.Core.Path.{subst}
use ccs2_plus.Prelude.Float.{Float64}
use ccs2_plus.Database
use ccs2_plus.Database.{Collation, Db, Conn, Result, Action, Outcome, done}
use ccs2_plus.Database.Statements.{room_meta}
use ccs2_plus.Database.Record.{
  CheckInParams, CheckOutParams, ExtendParams, PaymentParams, CommandParams, record_check_in,
  record_check_out, record_extend, record_payment, record_command,
}
use ccs2_plus.Database.Tables.{
  active_stay, check_in_tables, check_out_tables, extend_tables, payment_tables, commanded_rooms,
  command_tables,
}
use ccs2_plus.Database.Atomic.{Settled}
use ccs2_plus.Database.Effects.{
  record_check_in-Settled, record_check_out-Settled, record_extend-Settled, record_payment-Settled,
  record_command-Settled,
}
use ccs2_plus.Database.Integrity.{
  IsIntact, check_in-IsIntact, check_out_from-IsIntact, extend_from-IsIntact, payment_from-IsIntact,
  command_from-IsIntact,
}

pub data Call (A : Type 0) : Type 0 where
  check_in : CheckInParams A → Call A
  check_out : CheckOutParams → Call A
  extend : ExtendParams A → Call A
  payment : PaymentParams A → Call A
  command : CommandParams → Call A

module _ {A : Type 0} ⦃f : Float64 A⦄ ⦃o : Collation⦄ where
  abbrev pub perform : Call A → Action A Unit
  perform (check_in p) = record_check_in p
  perform (check_out p) = record_check_out p
  perform (extend p) = record_extend p
  perform (payment p) = record_payment p
  perform (command p) = record_command p

  abbrev tables : Call A → Db A → Outcome A Unit
  tables (check_in p) db = check_in_tables p db
  tables (check_out p) db = check_out_tables p db
  tables (extend p) db = extend_tables p db
  tables (payment p) db = payment_tables p db
  tables (command p) db = command_tables p db

  perform-Settled :
      (call : Call A) (c : Conn A)
      → c.pending ≡ none
      → Settled (tables call c.committed) c (perform call c)
  perform-Settled (check_in p) c h = record_check_in-Settled p c h
  perform-Settled (check_out p) c h = record_check_out-Settled p c h
  perform-Settled (extend p) c h = record_extend-Settled p c h
  perform-Settled (payment p) c h = record_payment-Settled p c h
  perform-Settled (command p) c h = record_command-Settled p c h

  tables-IsIntact :
      (call : Call A) (db db' : Db A) → tables call db ≡ done tt db' → IsIntact db → IsIntact db'
  unfolding check_out_tables extend_tables payment_tables command_tables
  tables-IsIntact (check_in p) db db' e s = check_in-IsIntact p db db' e s
  tables-IsIntact (check_out p) db db' e s =
      check_out_from-IsIntact p db db' (active_stay p.room_id db.stays) e s
  tables-IsIntact (extend p) db db' e s =
      extend_from-IsIntact p db db' (active_stay p.room_id db.stays) e s
  tables-IsIntact (payment p) db db' e s =
      payment_from-IsIntact p db db' (active_stay p.room_id db.stays) (room_meta p.room_id db.rooms)
        e refl s
  tables-IsIntact (command p) db db' e s =
      command_from-IsIntact p db db' (room_meta p.room_id (commanded_rooms p db.rooms)) e refl s

  -- The connection after a list of calls, whose results are not looked at.
  unfoldable pub perform_all : List (Call A) → Conn A → Conn A
  perform_all [] c = c
  perform_all (call ∷ calls) c = perform_all calls (perform call c).1

  Settled-IsIntact :
      (call : Call A) (c : Conn A) (o : Result Unit × Conn A)
      → Settled (tables call c.committed) c o
      → IsIntact c.committed
      → (o.1.pending ≡ none) × IsIntact o.1.committed
  Settled-IsIntact call c (Database.ok r, d) (e, p) s =
      (p, tables-IsIntact call c.committed d.committed e s)
  Settled-IsIntact call c (Database.err x, d) (e, p, w) s = (p, subst IsIntact (sym e) s)

  -- Where the tables have distinct keys and every stay, payment and event names a room that there is, any
  -- list of calls leaves them so, whatever the calls of the driver do and whether the calls succeed; and
  -- no transaction stays open.
  pub perform_all-IsIntact :
      (calls : List (Call A)) (c : Conn A)
      → c.pending ≡ none
      → IsIntact c.committed
      → ((perform_all calls c).pending ≡ none) × IsIntact (perform_all calls c).committed
  unfolding perform_all
  perform_all-IsIntact [] c h s = (h, s)
  perform_all-IsIntact (call ∷ calls) c h s =
      let (p, i) = Settled-IsIntact call c (perform call c) (perform-Settled call c h) s in
      perform_all-IsIntact calls (perform call c).1 p i
