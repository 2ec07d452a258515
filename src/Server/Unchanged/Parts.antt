-- ===== src/Server/Unchanged/Parts.antt =====
-- What is said of a request and the server after it, and the parts of a handler that keep it.
use ccs2_plus.Prelude.{
  ◌≡◌, refl, ap, sym, ◌∙◌, String, Bool, true, false, Option, none, some, Option-cases, inl, inr,
  arith,
}
use ccs2_plus.Transport
use ccs2_plus.Transport.{CommandIntent, CommandResult, IntentResult, apply_intent}
use ccs2_plus.StateStore.{RoomState, AuditEvent, StateStore}
use ccs2_plus.StateStore.Audit.{alert_for_audit}
use ccs2_plus.Database
use ccs2_plus.Database.{Collation, Conn, Db, Result, Action, Outcome}
use ccs2_plus.Database.Atomic.{Settled}
use ccs2_plus.Server.{
  CheckInRequest, CheckoutRequest, RoomCommandRequest, ExtendRequest, PaymentRequest, Response,
  failure, Server, Clock, conclude, audited, alerted, updated, record_in, recorded,
}
use ccs2_plus.Server.Handlers.{apply, after_apply, decoded, in_room, unsent_finish}

pub data Request (A : Type 0) : Type 0 where
  check_in : String → Option (CheckInRequest A) → Request A
  check_out : String → Option CheckoutRequest → Request A
  command : String → Option RoomCommandRequest → Request A
  extend : String → Option (ExtendRequest A) → Request A
  payment : String → Option (PaymentRequest A) → Request A

abbrev pub When : Bool → Type 0 → Type 0
When true P = P
When false P = Unit

module _ {A : Type 0} where
  unfoldable pub is_failure : Response A → Bool
  is_failure (failure status code reason request_id) = true
  is_failure _ = false

  -- No transaction is open.
  abbrev pub IsIdle : Option (Conn A) → Type 0
  IsIdle none = Unit
  IsIdle (some conn) = conn.pending ≡ none

  abbrev pub committed_of : Option (Conn A) → Option (Db A)
  committed_of none = none
  committed_of (some conn) = some conn.committed

  -- The rooms, the audit list and the alerts in memory, the events that wait for the subscribers, and
  -- the committed tables are the same.
  abbrev pub Unchanged : Server A → Server A → Type 0
  Unchanged s s' =
      (s'.state ≡ s.state) × (s'.events ≡ s.events) × (committed_of s'.store ≡ committed_of s.store)

  -- No transaction is open after a request, and a failure has changed nothing.
  abbrev pub Served : Server A → Response A × Server A → Type 0
  Served s (r, s') = IsIdle s'.store × When (is_failure r) (Unchanged s s')

  pub conclude-store :
      (change : StateStore A → StateStore A) (entry : AuditEvent) (s : Server A)
      → (conclude change entry s).store ≡ s.store
  unfolding conclude audited updated
  conclude-store change entry s = refl

  pub finished-Served :
      (s t : Server A) (response : Response A) (finish : Server A → Server A)
      → is_failure response ≡ false
      → ((t : Server A) → (finish t).store ≡ t.store)
      → IsIdle t.store
      → Served s (response, finish t)
  finished-Served s t response finish success keeps idle = (rw (keeps t) idle, rw success tt)

  after_action-Served :
      (spec : Outcome A Unit) (c : Conn A) (o : Result Unit × Conn A) (s t : Server A)
      (request_id : String) (response : Response A) (finish : Server A → Server A)
      → Settled spec c o
      → is_failure response ≡ false
      → ((t : Server A) → (finish t).store ≡ t.store)
      → Unchanged s t
      → t.store ≡ some c
      → Served s (recorded (o.0, record t { store = some o.1 }) request_id response finish)
  unfolding recorded is_failure
  after_action-Served spec c (Database.ok r, d) s t request_id response finish (e, p) success keeps
        same h =
      finished-Served s (record t { store = some d }) response finish success keeps p
  after_action-Served spec c (Database.err x, d) s t request_id response finish (e, p, w) success
        keeps (same, sent, db) h =
      (p, (same, sent, ap some e ∙ (sym (ap committed_of h) ∙ db)))

  IsIdle-some : (o : Option (Conn A)) (c : Conn A) → o ≡ some c → IsIdle o → c.pending ≡ none
  IsIdle-some none c e h = ground arith
  IsIdle-some (some d) c e h = ground arith

  alerted-store : (entry : AuditEvent) (s : Server A) → (alerted entry s).store ≡ s.store
  unfolding alerted
  alerted-store entry s = elim (Option-cases (alert_for_audit s.state entry)) [
    | inl e ↦ rw (e, alerted) refl
    | inr (a, e) ↦ rw (e, alerted) refl
  ]

  pub unsent_finish-store :
      (clock : Clock) (room_id : String) (req : RoomCommandRequest) (s : Server A)
      → (unsent_finish clock room_id req s).store ≡ s.store
  unfolding unsent_finish updated audited
  unsent_finish-store clock room_id req s = alerted-store _ (record s { state = _; events = _ })

  pub recorded-Served :
      (action : Action A Unit) (spec : Db A → Outcome A Unit) (s t : Server A) (request_id : String)
      (response : Response A) (finish : Server A → Server A)
      → ((c : Conn A) → c.pending ≡ none → Settled (spec c.committed) c (action c))
      → is_failure response ≡ false
      → ((t : Server A) → (finish t).store ≡ t.store)
      → Unchanged s t
      → IsIdle t.store
      → Served s (recorded (record_in action t) request_id response finish)
  unfolding record_in recorded
  recorded-Served action spec s t request_id response finish settles success keeps same idle =
      elim (Option-cases t.store) [
        | inl e ↦ rw (e, record_in) (finished-Served s t response finish success keeps idle)
        | inr (c, e) ↦
            rw (e, record_in)
              (after_action-Served (spec c.committed) c (action c) s t request_id response finish
                (settles c (IsIdle-some t.store c e idle)) success keeps same e)
      ]

  after_result-Served :
      (r : IntentResult) (s t : Server A) (request_id : String)
      (next : CommandResult → Server A → Response A × Server A)
      → IsIdle t.store
      → Unchanged s t
      → ((result : CommandResult) (t : Server A)
          → Unchanged s t
          → IsIdle t.store
          → Served s (next result t))
      → Served s (after_apply (r, t) request_id next)
  unfolding after_apply is_failure
  after_result-Served (Transport.err e) s t request_id next idle same h = (idle, same)
  after_result-Served (Transport.ok result) s t request_id next idle same h = h result t same idle

  pub after_apply-Served :
      (intent : CommandIntent) (clock : Clock) (s : Server A) (request_id : String)
      (next : CommandResult → Server A → Response A × Server A)
      → IsIdle s.store
      → ((result : CommandResult) (t : Server A)
          → Unchanged s t
          → IsIdle t.store
          → Served s (next result t))
      → Served s (after_apply (apply intent clock s) request_id next)
  unfolding apply
  after_apply-Served intent clock s request_id next idle h =
      after_result-Served (apply_intent s.transport intent clock.sent).0 s
        (record s { transport = (apply_intent s.transport intent clock.sent).1 }) request_id next
        idle (refl, refl, refl) h

  pub decoded-Served :
      {R : Type 0} (body : Option R) (s : Server A) (next : R → Response A × Server A)
      → IsIdle s.store
      → ((req : R) → Served s (next req))
      → Served s (decoded body s next)
  unfolding decoded is_failure
  decoded-Served none s next idle h = (idle, (refl, refl, refl))
  decoded-Served (some req) s next idle h = h req

  pub in_room-Served :
      (room : Option (RoomState A)) (request_id : String) (s t : Server A)
      (next : RoomState A → Response A × Server A)
      → IsIdle t.store
      → Unchanged s t
      → ((room : RoomState A) → Served s (next room))
      → Served s (in_room room request_id t next)
  unfolding in_room is_failure
  in_room-Served none request_id s t next idle same h = (idle, same)
  in_room-Served (some room) request_id s t next idle same h = h room
