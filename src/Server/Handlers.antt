-- ===== src/Server/Handlers.antt =====
-- The five handlers of server.go that change state. A request is `none` where the body is not the
-- JSON that the handler decodes.
mod Parts
unfoldable pub use Parts.*
use ccs2_plus.Prelude.{String, Option, none, some, ◌==◌, ◌||◌, if◌then◌else◌}
use ccs2_plus.Prelude.Int.{ℤ, pos, ◌+ℤ◌, ltb_ℤ, wrap}
use ccs2_plus.Prelude.Float.{Float64}
use ccs2_plus.Legacy.{semantic_vacant, semantic_occupied}
use ccs2_plus.Transport
use ccs2_plus.Transport.{CommandIntent, CommandResult, IntentResult, Service, apply_intent}
use ccs2_plus.StateStore.{
  RoomState, check_in_minutes, get, apply_check_in, apply_check_out, apply_command, apply_extend,
  apply_payment,
}
use ccs2_plus.Database.{Collation, Result}
use ccs2_plus.Database.Record.{
  CheckInParams, record_check_in, record_check_out, record_extend, record_payment, record_command,
}
use ccs2_plus.Server.{
  CheckInRequest, CheckoutRequest, RoomCommandRequest, ExtendRequest, PaymentRequest, Response,
  applied, commanded, paid, failure, bad_json, room_missing, unsupported_action, transport, Server,
  Clock, request_id_or_now, fallback_case, fallback_actor, fallback_detail,
  command_intent_from_action, reply, accepted, audited, alerted, updated, conclude, record_in,
  recorded,
}
use ccs2_plus.Server.Handlers.Parts.{
  apply, after_apply, decoded, in_room, minutes_of, unsent_finish,
}

module _ {A : Type 0} ⦃f : Float64 A⦄ where
  -- The end of `handleCheckIn`.
  abbrev pub check_in_finish :
      Clock → String → CheckInRequest A → CommandResult → Server A → Server A
  check_in_finish clock room_id req result =
      let case_code = fallback_case req.case_code req.stay_mode in
      conclude
        (apply_check_in room_id req.stay_mode case_code req.stay_hours req.payment_amount
          req.payment_ref clock.updated)
        (accepted result.request_id clock.now room_id "check_in" "cashier" req.stay_mode case_code
          req.payment_ref)

  -- The rest of `handleCheckIn` after the call of `apply`.
  unfoldable pub check_in_applied :
      Clock → String → CheckInRequest A → CommandResult → Server A → Response A × Server A
  check_in_applied clock room_id req result s =
      let case_code = fallback_case req.case_code req.stay_mode in
      let params : CheckInParams A = record {
        request_id = result.request_id;
        room_id = room_id;
        stay_mode = req.stay_mode;
        case_code = case_code;
        remaining_minutes = check_in_minutes req.stay_hours req.stay_mode;
        payment_amount = req.payment_amount;
        payment_ref = req.payment_ref;
        actor = "cashier";
        timestamp = clock.now;
      } in
      elim s.store [
        | none ↦ (applied (reply result), check_in_finish clock room_id req result s)
        | some conn ↦ in_room (get s.state room_id) result.request_id s λ room.
            recorded (record_in (record_check_in params) s) result.request_id
              (applied (reply result)) (check_in_finish clock room_id req result)
      ]

  unfoldable pub handle_check_in :
      Clock → String → Option (CheckInRequest A) → Server A → Response A × Server A
  handle_check_in clock room_id body s = decoded body s λ req.
      after_apply
        (apply
          (record {
            request_id = request_id_or_now req.request_id clock.asked;
            room_id = room_id;
            action = "check_in";
            target_state = semantic_occupied;
            stay_mode = req.stay_mode;
            case_code = fallback_case req.case_code req.stay_mode;
          })
          clock s)
        req.request_id (check_in_applied clock room_id req)

  module _ ⦃o : Collation⦄ where
    -- The rest of `handlePayment` after the look-up of the room.
    unfoldable pub payment_in :
        Clock → String → PaymentRequest A → RoomState A → Server A → Response A × Server A
    payment_in clock room_id req room s =
        let request_id = request_id_or_now req.request_id clock.asked in
        recorded
          (record_in
            (record_payment record {
              request_id = request_id;
              room_id = room_id;
              amount = req.amount;
              method = req.method;
              reference = req.reference;
              actor = "cashier";
              timestamp = clock.now;
            })
            s)
          request_id
          (paid request_id room_id req.amount req.method req.reference room.stay_mode room.case_code
            clock.now)
          (conclude (apply_payment room_id req.amount req.method req.reference clock.updated) (
            accepted request_id clock.now room_id "receive_payment" "cashier" room.stay_mode
              room.case_code req.reference))

    unfoldable pub handle_payment :
        Clock → String → Option (PaymentRequest A) → Server A → Response A × Server A
    handle_payment clock room_id body s = decoded body s λ req.
        in_room (get s.state room_id) req.request_id s λ room. payment_in clock room_id req room s

    -- The rest of `handleCheckOut` after the call of `apply`.
    unfoldable pub check_out_applied :
        Clock → String → CommandResult → Server A → Response A × Server A
    check_out_applied clock room_id result s =
        recorded
          (record_in
            (record_check_out record {
              request_id = result.request_id;
              room_id = room_id;
              actor = "cashier";
              timestamp = clock.now;
            })
            s)
          result.request_id (applied (reply result))
          (conclude (apply_check_out room_id clock.updated)
            (accepted result.request_id clock.now room_id "check_out" "cashier" "" "" ""))

    unfoldable pub handle_check_out :
        Clock → String → Option CheckoutRequest → Server A → Response A × Server A
    handle_check_out clock room_id body s = decoded body s λ req.
        after_apply
          (apply
            (record {
              request_id = request_id_or_now req.request_id clock.asked;
              room_id = room_id;
              action = "check_out";
              target_state = semantic_vacant;
              stay_mode = "";
              case_code = "";
            })
            clock s)
          req.request_id (check_out_applied clock room_id)

    -- The rest of `handleExtend`; `current` is the zero value where there is no such room.
    unfoldable pub extend_applied :
        Clock → String → ExtendRequest A → CommandResult → Server A → Response A × Server A
    extend_applied clock room_id req result s =
        let case_code = fallback_case req.case_code req.stay_mode in
        let sum : ℤ = wrap (minutes_of (get s.state room_id) +ℤ req.extend_minutes) in
        recorded
          (record_in
            (record_extend record {
              request_id = result.request_id;
              room_id = room_id;
              stay_mode = req.stay_mode;
              case_code = case_code;
              remaining_minutes = if ltb_ℤ sum req.extend_minutes then req.extend_minutes else sum;
              extend_minutes = req.extend_minutes;
              payment_amount = req.payment_amount;
              payment_ref = req.payment_ref;
              actor = "cashier";
              timestamp = clock.now;
            })
            s)
          result.request_id (applied (reply result))
          (conclude
            (apply_extend room_id req.stay_mode case_code req.extend_minutes req.payment_amount
              req.payment_ref clock.updated)
            (accepted result.request_id clock.now room_id "extend_stay" "cashier" req.stay_mode
              case_code req.payment_ref))

    unfoldable pub handle_extend :
        Clock → String → Option (ExtendRequest A) → Server A → Response A × Server A
    handle_extend clock room_id body s = decoded body s λ req.
        after_apply
          (apply
            (record {
              request_id = request_id_or_now req.request_id clock.asked;
              room_id = room_id;
              action = "extend_stay";
              target_state = semantic_occupied;
              stay_mode = req.stay_mode;
              case_code = fallback_case req.case_code req.stay_mode;
            })
            clock s)
          req.request_id (extend_applied clock room_id req)

    -- The call of `RecordCommand` in `handleRoomCommand`.
    abbrev pub recorded_command :
        Clock → String → RoomCommandRequest → String → String → Server A → Result Unit × Server A
    recorded_command clock room_id req request_id detail = record_in (
        record_command record {
          request_id = request_id;
          room_id = room_id;
          action = req.action;
          actor = fallback_actor req.actor req.source;
          detail = detail;
          timestamp = clock.now;
        })

    -- "open_room" and "service", which send nothing to the bus.
    unfoldable pub unsent_command :
        Clock → String → RoomCommandRequest → Server A → Response A × Server A
    unsent_command clock room_id req s =
        let request_id = request_id_or_now req.request_id clock.asked in
        let detail = fallback_detail req.reason req.service_type in
        recorded (recorded_command clock room_id req request_id detail s) request_id
          (commanded request_id room_id req.action detail clock.now)
          (unsent_finish clock room_id req)

    -- The rest of `handleRoomCommand` after the call of `apply`.
    unfoldable pub command_applied :
        Clock → String → RoomCommandRequest → CommandResult → Server A → Response A × Server A
    command_applied clock room_id req result s =
        recorded (recorded_command clock room_id req result.request_id "" s) result.request_id
          (applied (reply result))
          (conclude (apply_command room_id req.action clock.updated) (
            accepted result.request_id clock.now room_id req.action
              (fallback_actor req.actor req.source) "" "" ""))

    -- After `commandIntentFromAction`.
    unfoldable pub with_intent :
        Clock
        → String
        → RoomCommandRequest
        → Server A
        → Option CommandIntent
        → Response A × Server A
    with_intent clock room_id req s none =
        (failure 400 "INVALID_ACTION" (unsupported_action req.action) req.request_id, s)
    with_intent clock room_id req s (some intent) =
        if req.action == "open_room" || req.action == "service"
        then unsent_command clock room_id req s
        else after_apply (apply intent clock s) req.request_id (command_applied clock room_id req)

    unfoldable pub handle_room_command :
        Clock → String → Option RoomCommandRequest → Server A → Response A × Server A
    handle_room_command clock room_id body s =
        decoded body s λ req.
          with_intent clock room_id req s (command_intent_from_action room_id req clock.asked)
