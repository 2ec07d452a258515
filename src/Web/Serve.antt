-- ===== src/Web/Serve.antt =====
-- The router of go-backend/internal/httpapi/server.go: a request goes to the handler of its path.
use ccs2_plus.Prelude.{
  String, append, Bool, not, ◌||◌, Option, none, some, List, [], ◌∷◌, ◌==◌, if◌then◌else◌,
}
use ccs2_plus.Prelude.Float.{Float64}
use ccs2_plus.StateStore.{RoomState, get}
use ccs2_plus.StateStore.Audit.{list_audit, build_alerts}
use ccs2_plus.StateStore.Views.{full_state_payload}
use ccs2_plus.Database.{Collation}
use ccs2_plus.Events.{subscribe}
use ccs2_plus.Server.{Response, Server, Clock}
use ccs2_plus.Server.Handlers.{
  handle_check_in, handle_check_out, handle_room_command, handle_extend, handle_payment,
}
use ccs2_plus.Web.{
  Request, Page, answered, not_found, no_content, moved, pong, state_page, audit_page, alert_page,
  room_page, file, stream, Site,
}
use ccs2_plus.Web.Paths.{behind, is_some, trim_prefix, trim_slashes, split_slash}
use ccs2_plus.Web.Drive.{handle_google_drive_config}

-- The patterns that `Handler` registers; "/" matches every other path, and is there with a dashboard.
pub data Pattern : Type 0 where
  ping events state audit_events alerts config_gdrive rooms_without_slash rooms all_else : Pattern

-- The pattern of a path. The path of the rooms without its last slash is sent on to the subtree.
unfoldable pub pattern_of : String → Pattern
pattern_of path =
    if path == "/ping"
    then ping
    else if path == "/events"
    then events
    else if path == "/api/state"
    then state
    else if path == "/api/audit/events"
    then audit_events
    else if path == "/api/alerts"
    then alerts
    else if path == "/api/config/gdrive"
    then config_gdrive
    else if path == "/api/rooms"
    then rooms_without_slash
    else if is_some (behind "/api/rooms/" path)
    then rooms
    else all_else

module _ {A : Type 0} where
  abbrev pub with_server : Site A → Response A × Server A → Page A × Site A
  with_server site (response, server) = (answered response, record site { server = server })

  -- A handler that only reads, and only answers to GET.
  abbrev pub on_get : Request A → Site A → Page A → Page A × Site A
  on_get r site page = if r.method == "GET" then (page, site) else (not_found, site)

  -- `handleEvents` up to its subscription: the page is a stream on the channel, which `Web.Stream` goes
  -- on with while other requests come.
  abbrev pub subscribed : Site A → Page A × Site A
  subscribed site =
      let (channel, broker) = subscribe site.server.events in
      (stream channel, record site { server = record site.server { events = broker } })

  abbrev pub detail : Option (RoomState A) → Page A
  detail none = not_found
  detail (some room) = room_page room

  -- `handleRoomDetail`.
  unfoldable pub handle_room_detail : Site A → String → Page A × Site A
  handle_room_detail site room_id = (detail (get site.server.state room_id), site)

  module _ ⦃f : Float64 A⦄ ⦃o : Collation⦄ where
    -- The `switch` of `handleRooms`.
    abbrev pub room_action : Clock → Request A → Site A → String → String → Page A × Site A
    room_action clock r site room_id action =
        if not (r.method == "POST")
        then (not_found, site)
        else if action == "checkin"
        then with_server site (handle_check_in clock room_id r.as_check_in site.server)
        else if action == "checkout"
        then with_server site (handle_check_out clock room_id r.as_checkout site.server)
        else if action == "extend"
        then with_server site (handle_extend clock room_id r.as_extend site.server)
        else if action == "payment"
        then with_server site (handle_payment clock room_id r.as_payment site.server)
        else if action == "command"
        then with_server site (handle_room_command clock room_id r.as_command site.server)
        else (not_found, site)

    abbrev pub room_parts : Clock → Request A → Site A → List String → Page A × Site A
    room_parts clock r site (room_id ∷ []) =
        if r.method == "GET" then handle_room_detail site room_id else (not_found, site)
    room_parts clock r site (room_id ∷ action ∷ []) = room_action clock r site room_id action
    room_parts clock r site [] = (not_found, site)
    room_parts clock r site (a ∷ b ∷ c ∷ parts) = (not_found, site)

    unfoldable pub handle_rooms : Clock → Request A → Site A → Page A × Site A
    handle_rooms clock r site =
        room_parts clock r site (split_slash (trim_slashes (trim_prefix r.path "/api/rooms/")))

    -- `handleDashboard`, where `is_file` says of a path whether a file is there. The path is clean.
    unfoldable pub handle_dashboard : (String → Bool) → Request A → Site A → Page A × Site A
    handle_dashboard is_file r site =
        let path = trim_prefix r.path "/" in
        let target =
          append site.dashboard (append "/" (if path == "" then "index.html" else path)) in
        if r.method == "GET" || r.method == "HEAD"
        then (file (if is_file target then target else append site.dashboard "/index.html"), site)
        else (not_found, site)

    -- The handler of a pattern.
    abbrev pub handle : (String → Bool) → Clock → Request A → Site A → Pattern → Page A × Site A
    handle is_file clock r site ping = (pong clock.now, site)
    handle is_file clock r site events =
        if r.method == "GET" then subscribed site else (not_found, site)
    handle is_file clock r site state =
        on_get r site (state_page (full_state_payload site.server.state))
    handle is_file clock r site audit_events =
        on_get r site (audit_page (list_audit site.server.state r.room_id))
    handle is_file clock r site alerts = on_get r site (alert_page (build_alerts site.server.state))
    handle is_file clock r site config_gdrive =
        handle_google_drive_config r.method clock.now r.as_drive site
    handle is_file clock r site rooms_without_slash = (moved "/api/rooms/", site)
    handle is_file clock r site rooms = handle_rooms clock r site
    handle is_file clock r site all_else =
        if site.dashboard == "" then (not_found, site) else handle_dashboard is_file r site

    -- The router, and `withCORS` around it.
    unfoldable pub route : (String → Bool) → Clock → Request A → Site A → Page A × Site A
    route is_file clock r site =
        if r.method == "OPTIONS"
        then (no_content, site)
        else handle is_file clock r site (pattern_of r.path)
