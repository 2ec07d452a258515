-- ===== src/Server/Mirrored.antt =====
-- The requests keep the agreement of the rooms in memory with those of the database.
use ccs2_plus.Prelude.{
  ◌≡◌, refl, ap, String, false, ◌||◌, Bool-cases, Option, none, some, Option-cases, inl, inr, ◌==◌,
}
use ccs2_plus.Prelude.Int.{◌+ℤ◌, ltb_ℤ, wrap}
use ccs2_plus.Prelude.Float.{Float64}
use ccs2_plus.Transport
use ccs2_plus.Transport.{CommandIntent, CommandResult, IntentResult, apply_intent}
use ccs2_plus.StateStore.{RoomState, AuditEvent, StateStore, get, apply_command}
use ccs2_plus.StateStore.Audit.{alert_for_audit, append_audit}
use ccs2_plus.Database.{Collation, Conn}
use ccs2_plus.Database.Effects.{
  record_check_in-Settled, record_check_out-Settled, record_extend-Settled, record_payment-Settled,
  record_command-Settled,
}
use ccs2_plus.Server.{
  CheckInRequest, CheckoutRequest, RoomCommandRequest, ExtendRequest, PaymentRequest, Response,
  Server, Clock, audited, alerted, updated, command_intent_from_action, fallback_case,
}
use ccs2_plus.Server.Handlers.{
  apply, after_apply, decoded, in_room, minutes_of, check_in_finish, check_in_applied,
  handle_check_in, payment_in, handle_payment, check_out_applied, handle_check_out, extend_applied,
  handle_extend, unsent_finish, unsent_command, command_applied, with_intent, handle_room_command,
}
use ccs2_plus.Server.Unchanged.{Request, check_in, check_out, command, extend, payment, serve}
use ccs2_plus.Server.Agreement.{Mirrors}
use ccs2_plus.Server.Mirror.{IsMirrored, conclude-get, recorded-IsMirrored}
use ccs2_plus.Server.Matches.{
  check_in-Matches, check_out-Matches, command-Matches, extend-Matches, payment-Matches,
}
use ccs2_plus.Server.Unchanged.{conclude-store, unsent_finish-store}

fallback_case-present :
    (case_code stay_mode : String)
    → (stay_mode == "") ≡ false
    → (fallback_case case_code stay_mode == "") ≡ false
fallback_case-present case_code stay_mode h = elim (Bool-cases (case_code == "")) [
  | inl e ↦ rw e h
  | inr e ↦ rw e e
]

module _ {A : Type 0} where
  after_result-IsMirrored :
      (r : IntentResult) (s : Server A) (service : Transport.Service) (request_id : String)
      (next : CommandResult → Server A → Response A × Server A)
      → IsMirrored s
      → ((result : CommandResult) (service : Transport.Service)
          → IsMirrored (next result (record s { transport = service })).1)
      → IsMirrored (after_apply (r, record s { transport = service }) request_id next).1
  unfolding after_apply
  after_result-IsMirrored (Transport.err e) s service request_id next m h = m
  after_result-IsMirrored (Transport.ok result) s service request_id next m h = h result service

  after_apply-IsMirrored :
      (intent : CommandIntent) (clock : Clock) (s : Server A) (request_id : String)
      (next : CommandResult → Server A → Response A × Server A)
      → IsMirrored s
      → ((result : CommandResult) (service : Transport.Service)
          → IsMirrored (next result (record s { transport = service })).1)
      → IsMirrored (after_apply (apply intent clock s) request_id next).1
  unfolding apply
  after_apply-IsMirrored intent clock s request_id next m h =
      after_result-IsMirrored (apply_intent s.transport intent clock.sent).0 s
        (apply_intent s.transport intent clock.sent).1 request_id next m h

  decoded-IsMirrored :
      {R : Type 0} (body : Option R) (s : Server A) (next : R → Response A × Server A)
      → IsMirrored s
      → ((req : R) → body ≡ some req → IsMirrored (next req).1)
      → IsMirrored (decoded body s next).1
  unfolding decoded
  decoded-IsMirrored none s next m h = m
  decoded-IsMirrored (some req) s next m h = h req refl

  in_room-IsMirrored :
      (room : Option (RoomState A)) (request_id : String) (s : Server A)
      (next : RoomState A → Response A × Server A)
      → IsMirrored s
      → ((room : RoomState A) → IsMirrored (next room).1)
      → IsMirrored (in_room room request_id s next).1
  unfolding in_room
  in_room-IsMirrored none request_id s next m h = m
  in_room-IsMirrored (some room) request_id s next m h = h room

  alerted-state : (entry : AuditEvent) (s : Server A) → (alerted entry s).state ≡ s.state
  unfolding alerted
  alerted-state entry s = elim (Option-cases (alert_for_audit s.state entry)) [
    | inl e ↦ rw (e, alerted) refl
    | inr (a, e) ↦ rw (e, alerted) refl
  ]

  unsent_finish-get :
      (clock : Clock) (room_id : String) (req : RoomCommandRequest) (s : Server A) (key : String)
      → get (unsent_finish clock room_id req s).state key
        ≡ get (apply_command room_id req.action clock.updated s.state) key
  unfolding unsent_finish updated audited append_audit get
  unsent_finish-get clock room_id req s key =
      ap (λ (t : StateStore A). get t key) (alerted-state _ (record s { state = _; events = _ }))

module _ {A : Type 0} ⦃f : Float64 A⦄ where
  -- What makes an extension leave the two sides in agreement: it names a stay mode, and the sum of the
  -- minutes is at least those of the request.
  abbrev pub IsMirroring : Server A → Request A → Type 0
  IsMirroring s (extend room_id (some req)) =
      ((req.stay_mode == "") ≡ false)
      × (ltb_ℤ (wrap (minutes_of (get s.state room_id) +ℤ req.extend_minutes)) req.extend_minutes
          ≡ false)
  IsMirroring s _ = Unit

  handle_check_in-IsMirrored :
      (clock : Clock) (room_id : String) (body : Option (CheckInRequest A)) (s : Server A)
      (c : Conn A)
      → s.store ≡ some c
      → c.pending ≡ none
      → Mirrors s.state c.committed.rooms
      → IsMirrored (handle_check_in clock room_id body s).1
  unfolding handle_check_in check_in_applied
  handle_check_in-IsMirrored clock room_id body s c e idle m =
      let mirrored : IsMirrored s = rw e m in
      decoded-IsMirrored body s _ mirrored λ req b.
        after_apply-IsMirrored _ clock s req.request_id _ mirrored λ result service.
          rw (e, check_in_applied)
            (in_room-IsMirrored (get s.state room_id) result.request_id
              (record s { transport = service }) _ mirrored
              λ room.
                recorded-IsMirrored _ _ (record s { transport = service }) c _ _ _
                  (check_in_finish clock room_id req result) (record_check_in-Settled _)
                  (conclude-store _ _) (conclude-get _ _)
                  (check_in-Matches _ req.stay_hours clock.updated s.state refl) e idle m)

  module _ ⦃o : Collation⦄ where
    handle_check_out-IsMirrored :
        (clock : Clock) (room_id : String) (body : Option CheckoutRequest) (s : Server A)
        (c : Conn A)
        → s.store ≡ some c
        → c.pending ≡ none
        → Mirrors s.state c.committed.rooms
        → IsMirrored (handle_check_out clock room_id body s).1
    unfolding handle_check_out check_out_applied
    handle_check_out-IsMirrored clock room_id body s c e idle m =
        let mirrored : IsMirrored s = rw e m in
        decoded-IsMirrored body s _ mirrored λ req b.
          after_apply-IsMirrored _ clock s req.request_id _ mirrored λ result service.
            recorded-IsMirrored _ _ (record s { transport = service }) c _ _ _ _
              (record_check_out-Settled _) (conclude-store _ _) (conclude-get _ _)
              (check_out-Matches _ clock.updated s.state) e idle m

    handle_payment-IsMirrored :
        (clock : Clock) (room_id : String) (body : Option (PaymentRequest A)) (s : Server A)
        (c : Conn A)
        → s.store ≡ some c
        → c.pending ≡ none
        → Mirrors s.state c.committed.rooms
        → IsMirrored (handle_payment clock room_id body s).1
    unfolding handle_payment payment_in
    handle_payment-IsMirrored clock room_id body s c e idle m =
        let mirrored : IsMirrored s = rw e m in
        decoded-IsMirrored body s _ mirrored λ req b.
          in_room-IsMirrored (get s.state room_id) req.request_id s _ mirrored λ room.
            recorded-IsMirrored _ _ s c _ _ _ _ (record_payment-Settled _) (conclude-store _ _)
              (conclude-get _ _) (payment-Matches _ clock.updated s.state) e idle m

    handle_extend-IsMirrored :
        (clock : Clock) (room_id : String) (body : Option (ExtendRequest A)) (s : Server A)
        (c : Conn A)
        → s.store ≡ some c
        → c.pending ≡ none
        → IsMirroring s (extend room_id body)
        → Mirrors s.state c.committed.rooms
        → IsMirrored (handle_extend clock room_id body s).1
    unfolding handle_extend extend_applied decoded
    handle_extend-IsMirrored clock room_id none s c e idle g m = rw e m
    handle_extend-IsMirrored clock room_id (some req) s c e idle (g1, g2) m =
        after_apply-IsMirrored _ clock s req.request_id _ (rw e m) λ result service.
          recorded-IsMirrored _ _ (record s { transport = service }) c _ _ _ _
            (record_extend-Settled _) (conclude-store _ _) (conclude-get _ _)
            (extend-Matches _ clock.updated s.state g1
              (fallback_case-present req.case_code req.stay_mode g1) (rw g2 refl))
            e idle m

    with_intent-IsMirrored :
        (clock : Clock) (room_id : String) (req : RoomCommandRequest) (s : Server A) (c : Conn A)
        (intent : Option CommandIntent)
        → s.store ≡ some c
        → c.pending ≡ none
        → Mirrors s.state c.committed.rooms
        → IsMirrored (with_intent clock room_id req s intent).1
    unfolding with_intent command_applied unsent_command
    with_intent-IsMirrored clock room_id req s c none e idle m = rw e m
    with_intent-IsMirrored clock room_id req s c (some intent) e idle m =
        elim (Bool-cases (req.action == "open_room" || req.action == "service")) [
          | inl t ↦ rw t (
              recorded-IsMirrored _ _ s c _ _ _ (unsent_finish clock room_id req)
                (record_command-Settled _) (unsent_finish-store clock room_id req)
                (unsent_finish-get clock room_id req) (command-Matches _ clock.updated s.state) e
                idle m)
          | inr t ↦ rw t (
              after_apply-IsMirrored intent clock s req.request_id _ (rw e m) λ result service.
                recorded-IsMirrored _ _ (record s { transport = service }) c _ _ _ _
                  (record_command-Settled _) (conclude-store _ _) (conclude-get _ _)
                  (command-Matches _ clock.updated s.state) e idle m)
        ]

    -- Where the rows of the database agree with the rooms in memory on status, stay mode, case and
    -- minutes, they agree after any request, whether it succeeds or fails at any point. An extension is
    -- to name a stay mode, and the sum of the minutes is to be at least those that it asks for: the
    -- database and the memory treat the other extensions differently.
    pub serve-IsMirrored :
        (clock : Clock) (request : Request A) (s : Server A) (c : Conn A)
        → s.store ≡ some c
        → c.pending ≡ none
        → IsMirroring s request
        → Mirrors s.state c.committed.rooms
        → IsMirrored (serve clock request s).1
    unfolding handle_room_command
    serve-IsMirrored clock (check_in room_id body) s c e idle g m =
        handle_check_in-IsMirrored clock room_id body s c e idle m
    serve-IsMirrored clock (check_out room_id body) s c e idle g m =
        handle_check_out-IsMirrored clock room_id body s c e idle m
    serve-IsMirrored clock (extend room_id body) s c e idle g m =
        handle_extend-IsMirrored clock room_id body s c e idle g m
    serve-IsMirrored clock (payment room_id body) s c e idle g m =
        handle_payment-IsMirrored clock room_id body s c e idle m
    serve-IsMirrored clock (command room_id body) s c e idle g m =
        decoded-IsMirrored body s _ (rw e m) λ req b.
          with_intent-IsMirrored clock room_id req s c
            (command_intent_from_action room_id req clock.asked) e idle m
