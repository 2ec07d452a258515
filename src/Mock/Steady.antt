-- ===== src/Mock/Steady.antt =====
-- What the rooms and the audit list of the mock back end keep through any requests.
use ccs2_plus.Prelude.{
  ◌≡◌, refl, inl, inr, String, Bool, true, false, ◌==◌, Option, none, some, List, [], ◌∷◌, All,
  if◌then◌else◌, Option-cases,
}
use ccs2_plus.Prelude.Table.{Table, lookup, All-insert, All-lookup}
use ccs2_plus.Web.Paths.{split_slash, trim_slashes, trim_prefix}
use ccs2_plus.StateStore.Alerts.{IsWritten}
use ccs2_plus.Mock.{
  ScenarioRoom, AuditItem, Mock, new_mock, BodyValue, text, other, Applied, applied, failed,
  Changed, changed, unchanged, prolonged, by_action, by_op, noted, apply_action, string_or_default,
}
use ccs2_plus.Mock.Scenarios.{
  ScenarioReply, ScenarioEvent, ScenarioRequest, after_action, with_action, at_parts,
  serve_scenario,
}

-- A room stands under its own id, its status is vacant, occupied or cleaning, it is online, and it
-- has the floor and the minutes of the start.
abbrev pub IsSteady : String × ScenarioRoom → Type 0
IsSteady (key, room) =
    (room.room_id ≡ key)
    × IsWritten room.status
    × (room.controller_online ≡ true)
    × (room.floor ≡ 12)
    × (room.remaining_minutes ≡ some 120)

-- All rooms are steady, and every entry of the audit list is of an accepted action.
abbrev pub IsSound : Mock → Type 0
IsSound s = All IsSteady s.rooms × All (λ (item : AuditItem). item.result ≡ "accepted") s.audit

abbrev StaysSteady : String → Changed → Type 0
StaysSteady room_id (changed room) = IsSteady (room_id, room)
StaysSteady room_id (unchanged e) = Unit

either :
    (room_id : String) (t : Bool) (x y : Changed)
    → StaysSteady room_id x
    → StaysSteady room_id y
    → StaysSteady room_id (if t then x else y)
either room_id true x y hx hy = hx
either room_id false x y hx hy = hy

prolonged-IsSteady :
    (room_id : String) (body : Table BodyValue) (room : ScenarioRoom)
    → IsSteady (room_id, room)
    → IsSteady (room_id, prolonged body room)
prolonged-IsSteady room_id body room (id, status, online, floor, left) =
    let stay_mode = string_or_default (lookup "stay_mode" body) "" in
    by_test (stay_mode == "") (record room { status = "occupied" })
      (record room {
        status = "occupied";
        stay_mode = stay_mode;
        case_code = string_or_default (lookup "case" body) stay_mode;
      })
      (id, inr (inl refl), online, floor, left) (id, inr (inl refl), online, floor, left)
  where
    by_test :
        (t : Bool) (x y : ScenarioRoom)
        → IsSteady (room_id, x)
        → IsSteady (room_id, y)
        → IsSteady (room_id, if t then x else y)
    by_test true x y hx hy = hx
    by_test false x y hx hy = hy

by_action-StaysSteady :
    (room_id action : String) (room : ScenarioRoom)
    → IsSteady (room_id, room)
    → StaysSteady room_id (by_action action room)
by_action-StaysSteady room_id action room (id, status, online, floor, left) =
    either room_id (action == "start_cleaning") _ _ (id, inr (inr refl), online, floor, left)
      (either room_id (action == "finish_cleaning") _ _ (id, inl refl, online, floor, left)
        (either room_id (action == "open_room") _ _ (id, status, online, floor, left)
          (either room_id (action == "service") _ _ (id, status, online, floor, left) tt)))

by_op-StaysSteady :
    (room_id op action : String) (body : Table BodyValue) (room : ScenarioRoom)
    → IsSteady (room_id, room)
    → StaysSteady room_id (by_op op action body room)
by_op-StaysSteady room_id op action body room (id, status, online, floor, left) =
    either room_id (op == "checkin") _ _ (id, inr (inl refl), online, floor, left)
      (either room_id (op == "checkout") _ _ (id, inl refl, online, floor, left)
        (either room_id (op == "extend") _ _
          (prolonged-IsSteady room_id body room (id, status, online, floor, left))
          (either room_id (op == "payment") _ _ (id, status, online, floor, left)
            (either room_id (op == "command") _ _
              (by_action-StaysSteady room_id action room (id, status, online, floor, left)) tt))))

abbrev AppliedSound : Applied → Type 0
AppliedSound (applied s) = IsSound s
AppliedSound (failed e) = Unit

noted-AppliedSound :
    (now count room_id action : String) (body : Table BodyValue) (s : Mock) (c : Changed)
    → IsSound s
    → StaysSteady room_id c
    → AppliedSound (noted now count room_id action body s c)
noted-AppliedSound now count room_id action body s (unchanged e) h c = tt
noted-AppliedSound now count room_id action body s (changed room) (rooms, audit) steady =
    (All-insert IsSteady room_id room s.rooms rooms steady, (refl, audit))

apply_action-AppliedSound :
    (now count room_id op action : String) (body : Table BodyValue) (s : Mock)
    → IsSound s
    → AppliedSound (apply_action now count room_id op action body s)
unfolding apply_action
apply_action-AppliedSound now count room_id op action body s h =
    elim (Option-cases (lookup room_id s.rooms)) [
      | inl missing ↦ rw missing tt
      | inr (room, found) ↦ rw found (
          noted-AppliedSound now count room_id action body s (by_op op action body room) h (
            by_op-StaysSteady room_id op action body room
              (All-lookup IsSteady room_id room s.rooms h.0 found)))
    ]

after_action-IsSound :
    (r : ScenarioRequest) (room_id action request_id : String) (s : Mock) (a : Applied)
    → IsSound s
    → AppliedSound a
    → IsSound (after_action r room_id action request_id s a).1
after_action-IsSound r room_id action request_id s (failed e) h a = h
after_action-IsSound r room_id action request_id s (applied s') h a = a

with_action-IsSound :
    (r : ScenarioRequest) (room_id op : String) (s : Mock) (v : Option BodyValue)
    → IsSound s
    → IsSound (with_action r room_id op s v).1
with_action-IsSound r room_id op s none h = h
with_action-IsSound r room_id op s (some other) h = h
with_action-IsSound r room_id op s (some (text action)) h =
    after_action-IsSound r room_id action _ s
      (apply_action r.now r.audit_count room_id op action r.body s) h
      (apply_action-AppliedSound r.now r.audit_count room_id op action r.body s h)

at_parts-IsSound :
    (r : ScenarioRequest) (s : Mock) (parts : List String)
    → IsSound s
    → IsSound (at_parts r s parts).1
at_parts-IsSound r s [] h = h
at_parts-IsSound r s (a ∷ []) h = h
at_parts-IsSound r s (room_id ∷ op ∷ []) h =
    by_test (r.method == "POST") (with_action r room_id op s (lookup "action" r.body)) _
      (with_action-IsSound r room_id op s (lookup "action" r.body) h) h
  where
    by_test :
        (t : Bool) (x y : (ScenarioReply × List ScenarioEvent) × Mock)
        → IsSound x.1
        → IsSound y.1
        → IsSound (if t then x else y).1
    by_test true x y hx hy = hx
    by_test false x y hx hy = hy
at_parts-IsSound r s (a ∷ b ∷ c ∷ more) h = h

-- The state of the mock after requests, one after another.
unfoldable pub serve_scenarios : List ScenarioRequest → Mock → Mock
serve_scenarios [] s = s
serve_scenarios (r ∷ rs) s = serve_scenarios rs (serve_scenario r s).1

run-IsSound : (rs : List ScenarioRequest) (s : Mock) → IsSound s → IsSound (serve_scenarios rs s)
unfolding serve_scenarios serve_scenario
run-IsSound [] s h = h
run-IsSound (r ∷ rs) s h =
    run-IsSound rs (serve_scenario r s).1
      (at_parts-IsSound r s (split_slash (trim_slashes (trim_prefix r.path "/api/rooms/"))) h)

-- Through any requests to the mock back end, in any scenario, its rooms stand under their ids, are
-- vacant, occupied or cleaning, are online, and keep the floor and the minutes of the start, and its
-- audit list has accepted actions only.
pub serve_scenarios-IsSound :
    (scenario : String) (rs : List ScenarioRequest)
    → IsSound (serve_scenarios rs (new_mock scenario))
serve_scenarios-IsSound scenario rs =
    run-IsSound rs (new_mock scenario) (((refl, inl refl, refl, refl, refl), tt), tt)
