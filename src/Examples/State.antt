-- ===== src/Examples/State.antt =====
-- Tests of the state in memory, and instances of its theorems.
use ccs2_plus.Prelude.{ℕ, ◌≡◌, refl, List, [], ◌∷◌, arith, All, map, length, take}
use mathlib.Core.List.{filter_map, Perm}
use ccs2_plus.Prelude.Int.{pos}
use ccs2_plus.Prelude.Table.{lookup, insert}
use ccs2_plus.StateStore.{AuditEvent, StateStore, new_state_store}
use ccs2_plus.StateStore.Audit.{audit_limit, build_alerts, alert_for_audit, append_audit}
use ccs2_plus.StateStore.Views.{full_state_payload, tally}
use ccs2_plus.StateStore.Alerts.Vacant.{IsClear, methods-IsClear}
use ccs2_plus.StateStore.Alerts
use ccs2_plus.StateStore.Alerts.{Op, IsValid, run, statuses_written, build_alerts-filter_map}
use ccs2_plus.StateStore.Summary.{full_state_counts, shown, count_status, rooms_of}
use ccs2_plus.StateStore.History.{append_all, history, append_all-history}
use ccs2_plus.Examples.{two_rooms, whole_amounts}

abbrev fresh : StateStore ℕ
fresh = new_state_store ⦃f = whole_amounts⦄ two_rooms (λ i. i)

abbrev calls : List (Op ℕ)
calls =
    Alerts.check_in "1205" "overnight" "overnight" (pos 12) 500 "cash-1" 10
    ∷ Alerts.check_out "1205" 20
    ∷ Alerts.command "1205" "start_cleaning" 30
    ∷ []

methods-IsClear_example : All IsClear (run ⦃f = whole_amounts⦄ calls fresh).rooms
methods-IsClear_example = methods-IsClear ⦃f = whole_amounts⦄ two_rooms (λ i. i) calls

statuses_written_example : IsValid (run ⦃f = whole_amounts⦄ calls fresh)
statuses_written_example = statuses_written ⦃f = whole_amounts⦄ two_rooms (λ i. i) calls

build_alerts-filter_map_example :
    build_alerts (run ⦃f = whole_amounts⦄ calls fresh)
    ≡ filter_map
        (alert_for_audit (run ⦃f = whole_amounts⦄ calls fresh))
        (run ⦃f = whole_amounts⦄ calls fresh).audit
build_alerts-filter_map_example =
    build_alerts-filter_map (run ⦃f = whole_amounts⦄ calls fresh)
      (statuses_written ⦃f = whole_amounts⦄ two_rooms (λ i. i) calls)

full_state_counts_example :
    Perm (full_state_payload fresh).rooms (map shown (rooms_of fresh.rooms))
    × (tally "vacant" (full_state_payload fresh).summary
        ≡ count_status "vacant" (rooms_of fresh.rooms))
full_state_counts_example = full_state_counts fresh "vacant"

abbrev opened : AuditEvent
opened = record {
  id = "";
  timestamp = 40;
  room_id = "1205";
  action = "open_room";
  actor = "system";
  result = "accepted";
  stay_mode = "";
  case_code = "";
  detail = "";
}

append_all-history_example :
    (append_all (opened ∷ opened ∷ []) fresh).audit
    ≡ take audit_limit (history (opened ∷ opened ∷ []) fresh.next_audit fresh.audit)
unfolding new_state_store
append_all-history_example = append_all-history (opened ∷ opened ∷ []) fresh (omega arith)

-- A door that is opened in a vacant room raises one alert.
open_room_alerts : length (build_alerts (append_audit opened fresh).1) ≡ 1
unfolding build_alerts append_audit new_state_store lookup insert
open_room_alerts = refl
