-- ===== src/Database/Active.antt =====
-- The stays of a room that are in use.
use ccs2_plus.Prelude.{
  ℕ, suc, ◌≡◌, refl, ap, ◌∙◌, String, true, none, List, [], ◌∷◌, ◌++◌, eq_refl, length, keep, arith,
  inl, inr, Bool-cases,
}
use ccs2_plus.Prelude.Float.{Float64}
use mathlib.Core.Path.{subst}
use ccs2_plus.Database.{StayRow, Db, Conn, Collation, ok, done}
use ccs2_plus.Database.Atomic.{Settled}
use ccs2_plus.Database.Effects.{record_check_in-Settled}
use ccs2_plus.Database.Statements.{is_active}
use ccs2_plus.Database.Record.{CheckInParams, check_in_stay, record_check_in}
use ccs2_plus.Database.Tables.{check_in_tables}

module _ {A : Type 0} ⦃o : Collation⦄ where
  -- How many stays of a room are in use.
  abbrev pub active_count : String → List (StayRow A) → ℕ
  active_count room_id rows = length (keep (is_active room_id) rows)

  active_count-snoc :
      (room_id : String) (rows : List (StayRow A)) (row : StayRow A)
      → is_active room_id row ≡ true
      → active_count room_id (rows ++ row ∷ []) ≡ suc (active_count room_id rows)
  active_count-snoc room_id [] row h = rw h refl
  active_count-snoc room_id (r ∷ rows) row h = elim (Bool-cases (is_active room_id r)) [
    | inl e ↦ rw e (ap suc (active_count-snoc room_id rows row h))
    | inr e ↦ rw e (active_count-snoc room_id rows row h)
  ]

  tables_add_stay :
      ⦃f : Float64 A⦄ (p : CheckInParams A) (db db' : Db A)
      → check_in_tables p db ≡ done tt db'
      → active_count p.room_id db'.stays ≡ suc (active_count p.room_id db.stays)
  unfolding check_in_tables check_in_stay
  tables_add_stay p db db' e =
      let stays : db'.stays ≡ db.stays ++ check_in_stay p ∷ [] = ground arith in
      ap (active_count p.room_id) stays
      ∙ active_count-snoc p.room_id db.stays (check_in_stay p) (ground (arith, eq_refl p.room_id))

  -- With no transaction open before, a RecordCheckIn that returns without an error has committed one more
  -- stay in use of its room than there were, also where the room had one already.
  pub check_in_adds_stay :
      ⦃f : Float64 A⦄ (p : CheckInParams A) (c c' : Conn A)
      → c.pending ≡ none
      → record_check_in p c ≡ (ok tt, c')
      → active_count p.room_id c'.committed.stays ≡ suc (active_count p.room_id c.committed.stays)
  check_in_adds_stay p c c' free e =
      tables_add_stay p c.committed c'.committed
        ((subst (Settled (check_in_tables p c.committed) c) e (record_check_in-Settled p c free)).0)
