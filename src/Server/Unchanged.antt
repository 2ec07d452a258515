-- ===== src/Server/Unchanged.antt =====
-- What a failed request leaves as it was.
mod Parts
unfoldable pub use Parts.*
use ccs2_plus.Prelude.{
  ◌≡◌, refl, ap, sym, ◌∙◌, String, Bool, true, false, ◌||◌, Bool-cases, Option, none, some,
  Option-cases, inl, inr, ◌==◌, arith,
}
use ccs2_plus.Prelude.Float.{Float64}
use ccs2_plus.Transport
use ccs2_plus.Transport.{CommandIntent, CommandResult, IntentResult, apply_intent}
use ccs2_plus.StateStore.{RoomState, AuditEvent, StateStore, get}
use ccs2_plus.StateStore.Audit.{alert_for_audit}
use ccs2_plus.Database
use ccs2_plus.Database.{Collation, Conn, Db, Result, Action, Outcome}
use ccs2_plus.Database.Atomic.{Settled}
use ccs2_plus.Database.Effects.{
  record_check_in-Settled, record_check_out-Settled, record_extend-Settled, record_payment-Settled,
  record_command-Settled,
}
use ccs2_plus.Server.{
  CheckInRequest, CheckoutRequest, RoomCommandRequest, ExtendRequest, PaymentRequest, Response,
  applied, failure, Server, Clock, conclude, audited, alerted, updated, record_in, recorded, reply,
  command_intent_from_action,
}
use ccs2_plus.Server.Handlers.{
  apply, after_apply, check_in_finish, decoded, in_room, check_in_applied, handle_check_in,
  payment_in, handle_payment, check_out_applied, handle_check_out, extend_applied, handle_extend,
  unsent_finish, unsent_command, command_applied, with_intent, handle_room_command,
}
use ccs2_plus.Server.Unchanged.Parts.{
  Request, check_in, check_out, command, extend, payment, When, is_failure, IsIdle, committed_of,
  Unchanged, Served, conclude-store, unsent_finish-store, finished-Served, recorded-Served,
  after_apply-Served, decoded-Served, in_room-Served,
}

module _ {A : Type 0} ⦃f : Float64 A⦄ where
  check_in_applied-Served :
      (clock : Clock) (room_id : String) (req : CheckInRequest A) (result : CommandResult)
      (s t : Server A)
      → Unchanged s t
      → IsIdle t.store
      → Served s (check_in_applied clock room_id req result t)
  unfolding check_in_applied is_failure
  check_in_applied-Served clock room_id req result s t same idle = elim (Option-cases t.store) [
    | inl e ↦
        rw (e, check_in_applied)
          (finished-Served s t (applied (reply result)) (check_in_finish clock room_id req result)
            refl (conclude-store _ _) idle)
    | inr (c, e) ↦
        rw (e, check_in_applied)
          (in_room-Served (get t.state room_id) result.request_id s t _ idle same λ room.
            recorded-Served _ _ s t _ _ _ (record_check_in-Settled _) refl (conclude-store _ _) same
              idle)
  ]

  handle_check_in-Served :
      (clock : Clock) (room_id : String) (body : Option (CheckInRequest A)) (s : Server A)
      → IsIdle s.store
      → Served s (handle_check_in clock room_id body s)
  unfolding handle_check_in
  handle_check_in-Served clock room_id body s idle = decoded-Served body s _ idle λ req.
      after_apply-Served _ clock s req.request_id _ idle
        λ result t same idle'. check_in_applied-Served clock room_id req result s t same idle'

  module _ ⦃o : Collation⦄ where
    handle_check_out-Served :
        (clock : Clock) (room_id : String) (body : Option CheckoutRequest) (s : Server A)
        → IsIdle s.store
        → Served s (handle_check_out clock room_id body s)
    unfolding handle_check_out check_out_applied is_failure
    handle_check_out-Served clock room_id body s idle = decoded-Served body s _ idle λ req.
        after_apply-Served _ clock s req.request_id _ idle λ result t same idle'.
          recorded-Served _ _ s t _ _ _ (record_check_out-Settled _) refl (conclude-store _ _) same
            idle'

    handle_extend-Served :
        (clock : Clock) (room_id : String) (body : Option (ExtendRequest A)) (s : Server A)
        → IsIdle s.store
        → Served s (handle_extend clock room_id body s)
    unfolding handle_extend extend_applied is_failure
    handle_extend-Served clock room_id body s idle = decoded-Served body s _ idle λ req.
        after_apply-Served _ clock s req.request_id _ idle λ result t same idle'.
          recorded-Served _ _ s t _ _ _ (record_extend-Settled _) refl (conclude-store _ _) same
            idle'

    handle_payment-Served :
        (clock : Clock) (room_id : String) (body : Option (PaymentRequest A)) (s : Server A)
        → IsIdle s.store
        → Served s (handle_payment clock room_id body s)
    unfolding handle_payment payment_in is_failure
    handle_payment-Served clock room_id body s idle = decoded-Served body s _ idle λ req.
        in_room-Served (get s.state room_id) req.request_id s s _ idle (refl, refl, refl)
          λ room.
            recorded-Served _ _ s s _ _ _ (record_payment-Settled _) refl (conclude-store _ _)
              (refl, refl, refl) idle

    unsent_command-Served :
        (clock : Clock) (room_id : String) (req : RoomCommandRequest) (s : Server A)
        → IsIdle s.store
        → Served s (unsent_command clock room_id req s)
    unfolding unsent_command is_failure
    unsent_command-Served clock room_id req s idle =
        recorded-Served _ _ s s _ _ (unsent_finish clock room_id req) (record_command-Settled _)
          refl (unsent_finish-store clock room_id req) (refl, refl, refl) idle

    with_intent-Served :
        (clock : Clock) (room_id : String) (req : RoomCommandRequest) (s : Server A)
        (intent : Option CommandIntent)
        → IsIdle s.store
        → Served s (with_intent clock room_id req s intent)
    unfolding with_intent command_applied is_failure
    with_intent-Served clock room_id req s none idle = (idle, (refl, refl, refl))
    with_intent-Served clock room_id req s (some intent) idle =
        elim (Bool-cases (req.action == "open_room" || req.action == "service")) [
          | inl e ↦ rw e (unsent_command-Served clock room_id req s idle)
          | inr e ↦ rw e (
              after_apply-Served intent clock s req.request_id _ idle λ result t same idle'.
                recorded-Served _ _ s t _ _ _ (record_command-Settled _) refl (conclude-store _ _)
                  same idle')
        ]

    -- A request's handler.
    abbrev pub serve : Clock → Request A → Server A → Response A × Server A
    serve clock (check_in room_id body) s = handle_check_in clock room_id body s
    serve clock (check_out room_id body) s = handle_check_out clock room_id body s
    serve clock (command room_id body) s = handle_room_command clock room_id body s
    serve clock (extend room_id body) s = handle_extend clock room_id body s
    serve clock (payment room_id body) s = handle_payment clock room_id body s

    -- Where no transaction is open, a request that fails, whatever fails in it, leaves the rooms and the audit list in memory, what
    -- waits for the subscribers, and the committed tables as they were; a success or a failure leaves
    -- no transaction open.
    pub serve-Served :
        (clock : Clock) (request : Request A) (s : Server A)
        → IsIdle s.store
        → Served s (serve clock request s)
    unfolding handle_room_command
    serve-Served clock (check_in room_id body) s idle =
        handle_check_in-Served clock room_id body s idle
    serve-Served clock (check_out room_id body) s idle =
        handle_check_out-Served clock room_id body s idle
    serve-Served clock (extend room_id body) s idle = handle_extend-Served clock room_id body s idle
    serve-Served clock (payment room_id body) s idle =
        handle_payment-Served clock room_id body s idle
    serve-Served clock (command room_id body) s idle = decoded-Served body s _ idle λ req.
        with_intent-Served clock room_id req s (command_intent_from_action room_id req clock.asked)
          idle
