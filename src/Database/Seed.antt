-- ===== src/Database/Seed.antt =====
-- Open and seedRooms of go-backend/internal/store/store.go: the start with the mappings of the rooms. A room that is new gets a row with the defaults of the table, and of a room that has a row
-- only the columns of the mapping are set.
use ccs2_plus.Prelude.{
  ℕ, zero, suc, ap, sym, ◌≡◌, refl, ◌∙◌, String, append, Bool, true, false, none, List, [], ◌∷◌,
  ◌==◌, if◌then◌else◌,
}
use ccs2_plus.Prelude.Int.{pos}
use ccs2_plus.Prelude.Float.{Float64}
use ccs2_plus.RoomMap.{RoomMapping}
use ccs2_plus.StateStore.{floor_from_room_id}
use ccs2_plus.Database.{
  Time, TimeText, format, RoomRow, Db, Conn, Action, pure, raise, continue, next_fault, drawn, io,
  Result, ok, err, ◌>>=◌, ◌>>◌, Outcome, done, statement, transaction,
}
use ccs2_plus.Database.Statements.{set_rooms}
use ccs2_plus.Database.Atomic.{
  Runs, Runs-statement, Runs-bind, Runs-pure, Runs-eq, Settled, chain, transaction-Settled,
}

module _ {A : Type 0} where
  -- `ON CONFLICT(room_id) DO UPDATE`.
  abbrev pub remapped : RoomMapping → RoomRow A → RoomRow A
  remapped m row = record row {
    floor = floor_from_room_id m.room_id;
    controller_id = m.controller_id;
    rs485_address = m.address;
    card_index = m.card_index;
    port_index = m.port_index;
  }

module _ {A : Type 0} ⦃f : Float64 A⦄ where
  open f use {nought}

  -- The row that the `INSERT` makes, with the defaults of the table.
  abbrev pub new_row : RoomMapping → TimeText → RoomRow A
  new_row m now = record {
    room_id = m.room_id;
    floor = floor_from_room_id m.room_id;
    controller_id = m.controller_id;
    rs485_address = m.address;
    card_index = m.card_index;
    port_index = m.port_index;
    status = "vacant";
    stay_mode = "";
    case_code = "";
    controller_online = pos 1;
    remaining_minutes = pos 0;
    last_payment_amount = nought;
    last_payment_method = "";
    last_payment_ref = "";
    updated_at = now;
  }

  unfoldable pub seed_row : RoomMapping → TimeText → List (RoomRow A) → List (RoomRow A)
  seed_row m now [] = new_row m now ∷ []
  seed_row m now (row ∷ rows) =
      let rest = seed_row m now rows in
      if row.room_id == m.room_id then remapped m row ∷ rows else row ∷ rest

  -- The loop over the mappings.
  unfoldable pub seed_all : TimeText → List RoomMapping → Action A Unit
  seed_all now [] = pure tt
  seed_all now (m ∷ mappings) = do
    statement (append "seed room " m.room_id) (λ db. set_rooms (seed_row m now db.rooms) db)
    seed_all now mappings

  unfoldable pub seed_body : TimeText → List RoomMapping → Action A Unit
  seed_body now mappings = do
    statement "prepare room seed" (λ db. done tt db)
    seed_all now mappings

  unfoldable pub seed_rooms : List RoomMapping → Time → Action A Unit
  seed_rooms mappings now =
      transaction "begin room seed tx" "commit room seed" (seed_body (format now) mappings)

  -- `s.db.Exec` of a statement that keeps the tables which are there.
  unfoldable pub exec : String → Action A Unit
  exec context c =
      if next_fault c.faults
      then (err (record { context = context; cause = io }), drawn c)
      else (ok tt, drawn c)

  unfoldable pub exec_times : ℕ → String → Action A Unit
  exec_times zero context = pure tt
  exec_times (suc n) context = exec context >> exec_times n context

  -- What a call outside the database has come to.
  abbrev pub came_to : String → Bool → Action A Unit
  came_to context true = pure tt
  came_to context false = raise (record { context = context; cause = io })

  -- `Open`, where the directory was made or not, and the driver was found or not; `migrate` has ten
  -- statements. An error closes the database.
  unfoldable pub open_store : Bool → Bool → List RoomMapping → Time → Action A Unit
  open_store made opened mappings now = do
    came_to "create db directory" made
    came_to "open sqlite" opened
    exec "exec query"
    exec "exec query"
    exec_times 10 "migrate sqlite schema"
    seed_rooms mappings now

  -- What the loop makes of the rows.
  unfoldable pub seed_rows : TimeText → List RoomMapping → List (RoomRow A) → List (RoomRow A)
  seed_rows now [] rows = rows
  seed_rows now (m ∷ mappings) rows = seed_rows now mappings (seed_row m now rows)

  abbrev pub seed_tables : TimeText → List RoomMapping → Db A → Outcome A Unit
  seed_tables now mappings db = done tt (record db { rooms = seed_rows now mappings db.rooms })

  seed_all-Runs :
      (now : TimeText) (mappings : List RoomMapping)
      → Runs (seed_all now mappings) (seed_tables now mappings)
  unfolding seed_all seed_rows chain
  seed_all-Runs now [] = Runs-pure tt
  seed_all-Runs now (m ∷ mappings) =
      Runs-eq _ _ _ (Runs-bind _ _ _ _ (Runs-statement _ _) (λ r. seed_all-Runs now mappings))
        (λ db. refl)

  seed_body-Runs :
      (now : TimeText) (mappings : List RoomMapping)
      → Runs (seed_body now mappings) (seed_tables now mappings)
  unfolding seed_body chain
  seed_body-Runs now mappings =
      Runs-eq _ _ _ (Runs-bind _ _ _ _ (Runs-statement _ _) (λ r. seed_all-Runs now mappings))
        (λ db. refl)

  -- With no transaction open before, the seeding commits the rows of all mappings, or nothing.
  pub seed_rooms-Settled :
      (mappings : List RoomMapping) (now : Time) (c : Conn A)
      → c.pending ≡ none
      → Settled (seed_tables (format now) mappings c.committed) c (seed_rooms mappings now c)
  unfolding seed_rooms
  seed_rooms-Settled mappings now c h =
      transaction-Settled _ _ (seed_body (format now) mappings) _ c
        (seed_body-Runs (format now) mappings) h

  -- A sequence that succeeds is made of two parts that do.
  >>-ok :
      (m k : Action A Unit) (c d : Conn A)
      → (m >> k) c ≡ (ok tt, d)
      → (c' : Conn A) × (m c ≡ (ok tt, c')) × (k c' ≡ (ok tt, d))
  unfolding ◌>>=◌
  >>-ok m k c d e = by_result (m c) refl e
    where
      by_result :
          (p : Result Unit × Conn A)
          → m c ≡ p
          → continue p.0 (λ r. k) p.1 ≡ (ok tt, d)
          → (c' : Conn A) × (m c ≡ (ok tt, c')) × (k c' ≡ (ok tt, d))
      by_result (ok r, c') h e = (c', h, e)
      by_result (err x, c') h e = cc

  -- Only the faults that are left are different.
  abbrev pub SameConn : Conn A → Conn A → Type 0
  SameConn c d = (d.committed ≡ c.committed) × (d.pending ≡ c.pending)

  SameConn-trans : (c d e : Conn A) → SameConn c d → SameConn d e → SameConn c e
  SameConn-trans c d e (x, y) (x', y') = (x' ∙ x, y' ∙ y)

  exec-SameConn : (context : String) (c d : Conn A) → exec context c ≡ (ok tt, d) → SameConn c d
  unfolding exec
  exec-SameConn context c d e = by_test (next_fault c.faults) e
    where
      by_test :
          (b : Bool)
          → ◌≡◌ {A = Result Unit × Conn A}
              (if b
                then (err (record { context = context; cause = io }), drawn c)
                else (ok tt, drawn c))
              (ok tt, d)
          → SameConn c d
      by_test true e = cc
      by_test false e = (ap (λ p. p.1.committed) (sym e), ap (λ p. p.1.pending) (sym e))

  exec_times-SameConn :
      (n : ℕ) (context : String) (c d : Conn A) → exec_times n context c ≡ (ok tt, d) → SameConn c d
  unfolding exec_times pure
  exec_times-SameConn zero context c d e =
      (ap (λ p. p.1.committed) (sym e), ap (λ p. p.1.pending) (sym e))
  exec_times-SameConn (suc n) context c d e =
      let (c', first, rest) = >>-ok (exec context) (exec_times n context) c d e in
      SameConn-trans c c' d (exec-SameConn context c c' first)
        (exec_times-SameConn n context c' d rest)

  came_to-SameConn :
      (context : String) (b : Bool) (c d : Conn A) → came_to context b c ≡ (ok tt, d) → SameConn c d
  unfolding pure raise
  came_to-SameConn context true c d e =
      (ap (λ p. p.1.committed) (sym e), ap (λ p. p.1.pending) (sym e))
  came_to-SameConn context false c d e = cc

  -- An `Open` that succeeds has seeded the rooms on the tables that it found.
  pub open_store-seed_rooms :
      (made opened : Bool) (mappings : List RoomMapping) (now : Time) (c d : Conn A)
      → open_store made opened mappings now c ≡ (ok tt, d)
      → (c' : Conn A) × SameConn c c' × (seed_rooms mappings now c' ≡ (ok tt, d))
  unfolding open_store
  open_store-seed_rooms made opened mappings now c d e =
      let (c1, e1, r1) = >>-ok _ _ c d e in
      let (c2, e2, r2) = >>-ok _ _ c1 d r1 in
      let (c3, e3, r3) = >>-ok _ _ c2 d r2 in
      let (c4, e4, r4) = >>-ok _ _ c3 d r3 in
      let (c5, e5, r5) = >>-ok _ _ c4 d r4 in
      let s2 =
        SameConn-trans c c1 c2 (came_to-SameConn _ made c c1 e1)
          (came_to-SameConn _ opened c1 c2 e2) in
      let s4 = SameConn-trans c2 c3 c4 (exec-SameConn _ c2 c3 e3) (exec-SameConn _ c3 c4 e4) in
      (
        c5,
        SameConn-trans c c2 c5 s2 (SameConn-trans c2 c4 c5 s4 (exec_times-SameConn 10 _ c4 c5 e5)),
        r5,
      )
