-- ===== src/Server/Mirror.antt =====
-- A request keeps the agreement of the rooms in memory with those of the database.
use ccs2_plus.Prelude.{◌≡◌, refl, sym, ◌∙◌, String, Option, none, some, List, [], ◌∷◌}
use mathlib.Core.Path.{subst}
use ccs2_plus.StateStore.{AuditEvent, StateStore, get}
use ccs2_plus.StateStore.Audit.{append_audit}
use ccs2_plus.Database
use ccs2_plus.Database.{Collation, Conn, Db, RoomRow, Result, Action, Outcome, done}
use ccs2_plus.Database.Atomic.{Settled}
use ccs2_plus.Server.{Response, Server, conclude, audited, updated, record_in, recorded}
use ccs2_plus.Server.Agreement.{Mirrors}

module _ {A : Type 0} where
  abbrev pub MirrorsIn : StateStore A → Option (Conn A) → Type 0
  MirrorsIn state none = Unit
  MirrorsIn state (some c) = Mirrors state c.committed.rooms

  -- Where there is a database, its committed rooms agree with those in memory.
  abbrev pub IsMirrored : Server A → Type 0
  IsMirrored s = MirrorsIn s.state s.store

  -- The finish of a handler writes the audit list besides the rooms, which `get` does not read.
  pub conclude-get :
      (change : StateStore A → StateStore A) (entry : AuditEvent) (s : Server A) (key : String)
      → get (conclude change entry s).state key ≡ get (change s.state) key
  unfolding conclude audited updated append_audit get
  conclude-get change entry s key = refl

  Mirrors-get :
      (s t : StateStore A) (rows : List (RoomRow A))
      → ((key : String) → get t key ≡ get s key)
      → Mirrors s rows
      → Mirrors t rows
  Mirrors-get s t [] h m = tt
  Mirrors-get s t (row ∷ rows) h (m, ms) = (rw (h row.room_id) m, Mirrors-get s t rows h ms)

  finished-IsMirrored :
      (change : StateStore A → StateStore A) (finish : Server A → Server A) (t : Server A)
      (d : Conn A)
      → t.store ≡ some d
      → (finish t).store ≡ t.store
      → ((key : String) → get (finish t).state key ≡ get (change t.state) key)
      → Mirrors (change t.state) d.committed.rooms
      → IsMirrored (finish t)
  finished-IsMirrored change finish t d e keeps gets m =
      rw (keeps ∙ e) (Mirrors-get (change t.state) (finish t).state d.committed.rooms gets m)

  -- What an operation of the store and the update of the state in memory have to do with each other.
  abbrev pub Matches :
      (Db A → Outcome A Unit) → (StateStore A → StateStore A) → StateStore A → Type 0
  Matches spec change state =
      (db db' : Db A)
      → spec db ≡ done tt db'
      → Mirrors state db.rooms
      → Mirrors (change state) db'.rooms

  after_action-IsMirrored :
      (spec : Db A → Outcome A Unit) (c : Conn A) (o : Result Unit × Conn A) (t : Server A)
      (request_id : String) (response : Response A) (change : StateStore A → StateStore A)
      (finish : Server A → Server A)
      → Settled (spec c.committed) c o
      → ((t : Server A) → (finish t).store ≡ t.store)
      → ((t : Server A) (key : String) → get (finish t).state key ≡ get (change t.state) key)
      → Matches spec change t.state
      → Mirrors t.state c.committed.rooms
      → IsMirrored (recorded (o.0, record t { store = some o.1 }) request_id response finish).1
  unfolding recorded
  after_action-IsMirrored spec c (Database.ok r, d) t request_id response change finish (e, p) keeps
        gets agree m =
      finished-IsMirrored change finish (record t { store = some d }) d refl
        (keeps (record t { store = some d })) (gets (record t { store = some d }))
        (agree c.committed d.committed e m)
  after_action-IsMirrored spec c (Database.err x, d) t request_id response change finish (e, p, w)
        keeps gets agree m =
      subst (λ (db : Db A). Mirrors t.state db.rooms) (sym e) m

  pub recorded-IsMirrored :
      (action : Action A Unit) (spec : Db A → Outcome A Unit) (t : Server A) (c : Conn A)
      (request_id : String) (response : Response A) (change : StateStore A → StateStore A)
      (finish : Server A → Server A)
      → ((c : Conn A) → c.pending ≡ none → Settled (spec c.committed) c (action c))
      → ((t : Server A) → (finish t).store ≡ t.store)
      → ((t : Server A) (key : String) → get (finish t).state key ≡ get (change t.state) key)
      → Matches spec change t.state
      → t.store ≡ some c
      → c.pending ≡ none
      → Mirrors t.state c.committed.rooms
      → IsMirrored (recorded (record_in action t) request_id response finish).1
  unfolding record_in
  recorded-IsMirrored action spec t c request_id response change finish settles keeps gets agree e
        idle m =
      rw (e, record_in)
        (after_action-IsMirrored spec c (action c) t request_id response change finish
          (settles c idle) keeps gets agree m)
