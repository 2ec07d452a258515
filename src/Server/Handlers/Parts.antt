-- ===== src/Server/Handlers/Parts.antt =====
-- What the handlers of server.go share: the early returns, the call of `apply`, and the end of a
-- command that sends nothing.
use ccs2_plus.Prelude.{String, Option, none, some}
use ccs2_plus.Prelude.Int.{ℤ, pos}
use ccs2_plus.Transport
use ccs2_plus.Transport.{CommandIntent, CommandResult, IntentResult, Service, apply_intent}
use ccs2_plus.StateStore.{RoomState, apply_command}
use ccs2_plus.Server.{
  RoomCommandRequest, Response, failure, bad_json, room_missing, transport, Server, Clock,
  request_id_or_now, fallback_actor, fallback_detail, accepted, audited, alerted, updated,
}

module _ {A : Type 0} where
  -- `apply`: the call of `ApplyIntent`.
  unfoldable pub apply : CommandIntent → Clock → Server A → IntentResult × Server A
  apply intent clock s =
      let (r, service) = apply_intent s.transport intent clock.sent in
      (r, record s { transport = service })

  -- The response to an error of `apply`, or what comes after it.
  unfoldable pub after_apply :
      IntentResult × Server A
      → String
      → (CommandResult → Server A → Response A × Server A)
      → Response A × Server A
  after_apply (Transport.err e, s) request_id next =
      (failure 400 "TRANSPORT_ERROR" (transport e) request_id, s)
  after_apply (Transport.ok result, s) request_id next = next result s

  -- The response for a body that is not the JSON of the request.
  unfoldable pub decoded :
      {R : Type 0} → Option R → Server A → (R → Response A × Server A) → Response A × Server A
  decoded none s next = (failure 400 "INVALID_JSON" bad_json "", s)
  decoded (some req) s next = next req

  -- The response where a room is wanted and is not there.
  unfoldable pub in_room :
      Option (RoomState A)
      → String
      → Server A
      → (RoomState A → Response A × Server A)
      → Response A × Server A
  in_room none request_id s next = (failure 404 "ROOM_NOT_FOUND" room_missing request_id, s)
  in_room (some room) request_id s next = next room

  -- The minutes that a room has left, 0 for the zero value.
  abbrev pub minutes_of : Option (RoomState A) → ℤ
  minutes_of none = pos 0
  minutes_of (some room) = room.remaining_minutes

  -- The end of `handleRoomCommand` for "open_room" and "service".
  unfoldable pub unsent_finish : Clock → String → RoomCommandRequest → Server A → Server A
  unsent_finish clock room_id req s =
      let request_id = request_id_or_now req.request_id clock.asked in
      let (stored, s') =
        audited
          (accepted request_id clock.now room_id req.action (fallback_actor req.actor req.source) ""
            "" (fallback_detail req.reason req.service_type))
          (record s { state = apply_command room_id req.action clock.updated s.state }) in
      updated room_id request_id req.action (alerted stored s')
