-- ===== src/StateStore/Alerts/Vacant.antt =====
-- A vacant room has no stay: through the methods of `stateStore`, its stay mode and its case are empty.
use ccs2_plus.Prelude.{
  ℕ, ◌≡◌, refl, ◌⊎◌, inl, inr, Bool, true, false, ◌==◌, String, List, [], ◌∷◌, All, if◌then◌else◌,
}
use ccs2_plus.Prelude.Float.{Float64}
use ccs2_plus.RoomMap.{RoomMapping}
use ccs2_plus.StateStore.{
  RoomState, StateStore, checked_in, apply_check_in, vacated, apply_check_out, commanded,
  apply_command, extended, apply_extend, paid_by, apply_payment, new_state_store,
}
use ccs2_plus.StateStore.Audit.{append_audit}
use ccs2_plus.StateStore.Alerts.{
  Op, check_in, check_out, command, extend, payment, log_audit, apply_op, run, update_room-All,
  fill_rooms-All,
}

module _ {A : Type 0} where
  -- A room is occupied, is being cleaned, or is vacant without a stay mode and a case.
  abbrev pub IsClear : String × RoomState A → Type 0
  IsClear (k, room) =
      (room.status ≡ "occupied")
      ⊎ ((room.status ≡ "cleaning")
          ⊎ ((room.status ≡ "vacant") × (room.stay_mode ≡ "") × (room.case_code ≡ "")))

  either :
      (k : String) (b : Bool) (x y : RoomState A)
      → IsClear (k, x)
      → IsClear (k, y)
      → IsClear (k, if b then x else y)
  either k true x y hx hy = hx
  either k false x y hx hy = hy

  commanded-IsClear :
      (k action : String) (now : ℕ) (item : RoomState A)
      → IsClear (k, item)
      → IsClear (k, commanded action now item)
  commanded-IsClear k action now item h =
      either k (action == "start_cleaning") (record item { status = "cleaning"; updated_at = now })
        (if action == "finish_cleaning" then vacated now item else record item { updated_at = now })
        (inr (inl refl))
        (either k (action == "finish_cleaning") (vacated now item)
          (record item { updated_at = now }) (inr (inr (refl, refl, refl))) h)

module _ {A : Type 0} ⦃f : Float64 A⦄ where
  apply_op-IsClear :
      (op : Op A) (s : StateStore A) → All IsClear s.rooms → All IsClear (apply_op op s).rooms
  unfolding apply_op apply_check_in apply_check_out apply_command apply_extend apply_payment
      append_audit
  apply_op-IsClear (check_in room stay case hours amount ref now) s h =
      update_room-All IsClear room (checked_in stay case hours amount ref now) s
        (λ item t. inl refl) h
  apply_op-IsClear (check_out room now) s h =
      update_room-All IsClear room (vacated now) s (λ item t. inr (inr (refl, refl, refl))) h
  apply_op-IsClear (command room action now) s h =
      update_room-All IsClear room (commanded action now) s
        (λ item t. commanded-IsClear room action now item t) h
  apply_op-IsClear (extend room stay case minutes amount ref now) s h =
      update_room-All IsClear room (extended stay case minutes amount ref now) s
        (λ item t. inl refl) h
  apply_op-IsClear (payment room amount method ref now) s h =
      update_room-All IsClear room (paid_by amount method ref now) s (λ item t. t) h
  apply_op-IsClear (log_audit entry) s h = h

  run-IsClear :
      (ops : List (Op A)) (s : StateStore A) → All IsClear s.rooms → All IsClear (run ops s).rooms
  unfolding run
  run-IsClear [] s h = h
  run-IsClear (op ∷ ops) s h = run-IsClear ops (apply_op op s) (apply_op-IsClear op s h)

new_state_store-IsClear :
    (A : Type 0) ⦃f : Float64 A⦄ (mappings : List RoomMapping) (clock : ℕ → ℕ)
    → All (IsClear {A = A}) (new_state_store mappings clock).rooms
unfolding new_state_store
new_state_store-IsClear A mappings clock =
    fill_rooms-All IsClear (λ m now. inr (inr (refl, refl, refl))) [] mappings clock 0 tt

module _ {A : Type 0} ⦃f : Float64 A⦄ where
  -- From a new state every list of calls, whatever their arguments, leaves every room occupied, being
  -- cleaned, or vacant with an empty stay mode and an empty case.
  pub methods-IsClear :
      (mappings : List RoomMapping) (clock : ℕ → ℕ) (ops : List (Op A))
      → All IsClear (run ops (new_state_store mappings clock)).rooms
  methods-IsClear mappings clock ops =
      run-IsClear ops (new_state_store mappings clock) (new_state_store-IsClear A mappings clock)
