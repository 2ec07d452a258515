-- ===== src/Database/Integrity.antt =====
-- The keys of the tables through any list of calls of the store.
use ccs2_plus.Prelude.{
  ◌≡◌, refl, sym, ◌∙◌, keep, String, true, false, inl, inr, Bool-cases, Option, none, some,
  Option-cases, List, [], ◌∷◌, ◌++◌, ◌==◌, if◌then◌else◌, arith,
}
use mathlib.Core.Path.{subst}
use ccs2_plus.Prelude.Float.{Float64}
use ccs2_plus.Database.{Time, Collation, RoomRow, StayRow, PaymentRow, AuditRow, Db, done}
use ccs2_plus.Database.Statements.{
  RoomUpdate, room_set, has_room, room_meta, update_rooms, update_stays, cleaned_stays, cleaned_up,
  last_row, is_out,
}
use ccs2_plus.Database.Record.{
  CheckInParams, CheckOutParams, ExtendParams, PaymentParams, CommandParams, unpaid_update,
  check_in_update, check_in_stay, check_in_payment, check_in_event, checked_out_stay, extended_stay,
  extend_update, extend_payment, extend_event, payment_set, accepted_event, stay_payment,
}
use ccs2_plus.Database.Tables.{
  check_in_tables, changed_stays, check_out_from, extend_from, payment_from, commanded_rooms,
  commanded_stays, command_from,
}
use ccs2_plus.Database.Steps.{has_room-update_rooms, has_room-room_meta, room_set-room_id}
use ccs2_plus.Database.Keys.{IsSound, IsSound-rooms, IsSound-snoc, IsSound-if, IsSound-update_stays}

module _ {A : Type 0} where
  abbrev pub StaysSound : List (RoomRow A) → List (StayRow A) → Type 0
  StaysSound = IsSound (λ (row : StayRow A). row.stay_id) (λ (row : StayRow A). row.room_id)

  abbrev pub PaymentsSound : List (RoomRow A) → List (PaymentRow A) → Type 0
  PaymentsSound =
      IsSound (λ (row : PaymentRow A). row.payment_id) (λ (row : PaymentRow A). row.room_id)

  abbrev pub EventsSound : List (RoomRow A) → List AuditRow → Type 0
  EventsSound = IsSound (λ (row : AuditRow). row.event_id) (λ (row : AuditRow). row.room_id)

  -- Stays, payments and events have keys of their own, and each names a room that there is.
  abbrev pub IsIntact : Db A → Type 0
  IsIntact db =
      StaysSound db.rooms db.stays
      × PaymentsSound db.rooms db.payments
      × EventsSound db.rooms db.audit_events

  changed_stays-StaysSound :
      (stay_id : String) (change : StayRow A → StayRow A) (rooms : List (RoomRow A))
      (rows : List (StayRow A))
      → ((row : StayRow A) → (change row).stay_id ≡ row.stay_id)
      → ((row : StayRow A) → (change row).room_id ≡ row.room_id)
      → StaysSound rooms rows
      → StaysSound rooms (if stay_id == "" then rows else update_stays stay_id change rows)
  changed_stays-StaysSound stay_id change rooms rows h g s = elim (Bool-cases (stay_id == "")) [
    | inl e ↦ rw e s
    | inr e ↦ rw e (IsSound-update_stays stay_id change rooms rows h g s)
  ]

module _ {A : Type 0} ⦃f : Float64 A⦄ where
  pub check_in-IsIntact :
      (p : CheckInParams A) (db db' : Db A)
      → check_in_tables p db ≡ done tt db'
      → IsIntact db
      → IsIntact db'
  unfolding check_in_tables check_in_stay
  check_in-IsIntact p db db' e (stays, payments, events) =
      let rooms = update_rooms p.room_id (room_set (check_in_update p)) db.rooms in
      let same : (k : String) → has_room k rooms ≡ has_room k db.rooms = λ k.
        has_room-update_rooms k p.room_id (room_set (check_in_update p)) db.rooms
          (room_set-room_id (check_in_update p)) in
      let here : has_room p.room_id rooms ≡ true = same p.room_id ∙ ground arith in
      let result : db' ≡ record {
        rooms = rooms;
        stays = db.stays ++ check_in_stay p ∷ [];
        payments =
            if f.is_pos p.payment_amount
            then db.payments ++ check_in_payment p ∷ []
            else db.payments;
        audit_events = db.audit_events ++ check_in_event p ∷ [];
      } =
        ground arith in
      subst IsIntact (sym result) (
        IsSound-snoc _ _ rooms db.stays (check_in_stay p) (ground arith) here
            (IsSound-rooms _ _ db.rooms rooms db.stays same stays),
        IsSound-if (f.is_pos p.payment_amount) _ _ rooms db.payments (check_in_payment p)
            (λ paid. ground arith) here
            (IsSound-rooms _ _ db.rooms rooms db.payments same payments),
        IsSound-snoc _ _ rooms db.audit_events (check_in_event p) (ground arith) here
            (IsSound-rooms _ _ db.rooms rooms db.audit_events same events),
      )

  module _ ⦃o : Collation⦄ where
    pub check_out_from-IsIntact :
        (p : CheckOutParams) (db db' : Db A) (stay : Option (String × Time))
        → check_out_from p db stay ≡ done tt db'
        → IsIntact db
        → IsIntact db'
    unfolding check_out_from changed_stays
    check_out_from-IsIntact p db db' none e s = cc
    check_out_from-IsIntact p db db' (some (stay_id, guest_in)) e (stays, payments, events) =
        let u : RoomUpdate A = unpaid_update p.room_id "vacant" false p.timestamp in
        let rooms = update_rooms p.room_id (room_set u) db.rooms in
        let entry =
          accepted_event p.request_id p.room_id "check_out" p.actor "" "" "" p.timestamp in
        let same : (k : String) → has_room k rooms ≡ has_room k db.rooms =
          λ k. has_room-update_rooms k p.room_id (room_set u) db.rooms (room_set-room_id u) in
        let here : has_room p.room_id rooms ≡ true = same p.room_id ∙ ground arith in
        let result : db' ≡ record {
          rooms = rooms;
          stays =
              if stay_id == ""
              then db.stays
              else update_stays stay_id (checked_out_stay guest_in p.timestamp) db.stays;
          payments = db.payments;
          audit_events = db.audit_events ++ entry ∷ [];
        } =
          ground arith in
        subst IsIntact (sym result) (
          changed_stays-StaysSound stay_id (checked_out_stay guest_in p.timestamp) rooms db.stays
              (λ row. refl) (λ row. refl) (IsSound-rooms _ _ db.rooms rooms db.stays same stays),
          IsSound-rooms _ _ db.rooms rooms db.payments same payments,
          IsSound-snoc _ _ rooms db.audit_events entry (ground arith) here
              (IsSound-rooms _ _ db.rooms rooms db.audit_events same events),
        )

    pub extend_from-IsIntact :
        (p : ExtendParams A) (db db' : Db A) (stay : Option (String × Time))
        → extend_from p db stay ≡ done tt db'
        → IsIntact db
        → IsIntact db'
    unfolding extend_from changed_stays
    extend_from-IsIntact p db db' none e s = cc
    extend_from-IsIntact p db db' (some (stay_id, guest_in)) e (stays, payments, events) =
        let rooms = update_rooms p.room_id (room_set (extend_update p)) db.rooms in
        let same : (k : String) → has_room k rooms ≡ has_room k db.rooms = λ k.
          has_room-update_rooms k p.room_id (room_set (extend_update p)) db.rooms
            (room_set-room_id (extend_update p)) in
        let here : has_room p.room_id rooms ≡ true = same p.room_id ∙ ground arith in
        let result : db' ≡ record {
          rooms = rooms;
          stays =
              if stay_id == "" then db.stays else update_stays stay_id (extended_stay p) db.stays;
          payments =
              if f.is_pos p.payment_amount
              then db.payments ++ extend_payment stay_id p ∷ []
              else db.payments;
          audit_events = db.audit_events ++ extend_event p ∷ [];
        } =
          ground arith in
        subst IsIntact (sym result) (
          changed_stays-StaysSound stay_id (extended_stay p) rooms db.stays (λ row. refl)
              (λ row. refl) (IsSound-rooms _ _ db.rooms rooms db.stays same stays),
          IsSound-if (f.is_pos p.payment_amount) _ _ rooms db.payments (extend_payment stay_id p)
              (λ paid. ground arith) here
              (IsSound-rooms _ _ db.rooms rooms db.payments same payments),
          IsSound-snoc _ _ rooms db.audit_events (extend_event p) (ground arith) here
              (IsSound-rooms _ _ db.rooms rooms db.audit_events same events),
        )

    pub payment_from-IsIntact :
        (p : PaymentParams A) (db db' : Db A) (stay : Option (String × Time))
        (meta : Option (String × String))
        → payment_from p db stay meta ≡ done tt db'
        → room_meta p.room_id db.rooms ≡ meta
        → IsIntact db
        → IsIntact db'
    unfolding payment_from
    payment_from-IsIntact p db db' none meta e m s = cc
    payment_from-IsIntact p db db' (some stay) none e m s = ground arith
    payment_from-IsIntact p db db' (some (stay_id, guest_in)) (some (stay_mode, case_code)) e m
          (stays, payments, events) =
        let set : RoomRow A → RoomRow A = payment_set p.amount p.method p.reference p.timestamp in
        let rooms = update_rooms p.room_id set db.rooms in
        let row : PaymentRow A =
          stay_payment p.request_id p.method p.request_id stay_id p.room_id p.amount p.reference
            p.timestamp in
        let entry =
          accepted_event p.request_id p.room_id "receive_payment" p.actor stay_mode case_code
            p.reference p.timestamp in
        let same : (k : String) → has_room k rooms ≡ has_room k db.rooms =
          λ k. has_room-update_rooms k p.room_id set db.rooms (λ row. refl) in
        let here : has_room p.room_id rooms ≡ true =
          same p.room_id ∙ ground (arith, has_room-room_meta p.room_id db.rooms) in
        let result : db' ≡ record {
          rooms = rooms;
          stays = db.stays;
          payments = db.payments ++ row ∷ [];
          audit_events = db.audit_events ++ entry ∷ [];
        } =
          ground arith in
        subst IsIntact (sym result) (
          IsSound-rooms _ _ db.rooms rooms db.stays same stays,
          IsSound-snoc _ _ rooms db.payments row (ground arith) here
              (IsSound-rooms _ _ db.rooms rooms db.payments same payments),
          IsSound-snoc _ _ rooms db.audit_events entry (ground arith) here
              (IsSound-rooms _ _ db.rooms rooms db.audit_events same events),
        )

    cleaned_stays-StaysSound :
        (room_id : String) (ts : Time) (rooms : List (RoomRow A)) (rows : List (StayRow A))
        → StaysSound rooms rows
        → StaysSound rooms (cleaned_stays room_id ts rows)
    unfolding cleaned_stays
    cleaned_stays-StaysSound room_id ts rooms rows s =
        elim (Option-cases
          (last_row (λ (row : StayRow A). row.guest_out_at) (keep (is_out room_id) rows))) [
            | inl e ↦ rw (e, cleaned_stays) s
            | inr (last, e) ↦
                rw (e, cleaned_stays)
                  (IsSound-update_stays last.stay_id (cleaned_up ts) rooms rows (λ row. refl)
                    (λ row. refl) s)
          ]

    commanded_stays-StaysSound :
        (p : CommandParams) (rooms : List (RoomRow A)) (rows : List (StayRow A))
        → StaysSound rooms rows
        → StaysSound rooms (commanded_stays p rows)
    unfolding commanded_stays
    commanded_stays-StaysSound p rooms rows s = elim (Bool-cases (p.action == "start_cleaning")) [
      | inl e ↦ rw e s
      | inr e ↦ elim (Bool-cases (p.action == "finish_cleaning")) [
        | inl g ↦ rw (e, g) (cleaned_stays-StaysSound p.room_id p.timestamp rooms rows s)
        | inr g ↦ rw (e, g) s
      ]
    ]

    has_room-commanded_rooms :
        (p : CommandParams) (rows : List (RoomRow A)) (k : String)
        → has_room k (commanded_rooms p rows) ≡ has_room k rows
    unfolding commanded_rooms
    has_room-commanded_rooms p rows k =
        let u : RoomUpdate A = unpaid_update p.room_id "cleaning" true p.timestamp in
        let v : RoomUpdate A = unpaid_update p.room_id "vacant" false p.timestamp in
        ground (
          arith,
          has_room-update_rooms k p.room_id (room_set u) rows (room_set-room_id u),
          has_room-update_rooms k p.room_id (room_set v) rows (room_set-room_id v),
        )

    pub command_from-IsIntact :
        (p : CommandParams) (db db' : Db A) (meta : Option (String × String))
        → command_from p db (commanded_stays p db.stays) meta ≡ done tt db'
        → room_meta p.room_id (commanded_rooms p db.rooms) ≡ meta
        → IsIntact db
        → IsIntact db'
    unfolding command_from
    command_from-IsIntact p db db' none e m s = cc
    command_from-IsIntact p db db' (some (stay_mode, case_code)) e m (stays, payments, events) =
        let rooms = commanded_rooms p db.rooms in
        let entry =
          accepted_event p.request_id p.room_id p.action p.actor stay_mode case_code p.detail
            p.timestamp in
        let same = has_room-commanded_rooms p db.rooms in
        let here : has_room p.room_id rooms ≡ true =
          ground (arith, has_room-room_meta p.room_id rooms) in
        let result : db' ≡ record {
          rooms = rooms;
          stays = commanded_stays p db.stays;
          payments = db.payments;
          audit_events = db.audit_events ++ entry ∷ [];
        } =
          ground arith in
        subst IsIntact (sym result) (
          commanded_stays-StaysSound p rooms db.stays
              (IsSound-rooms _ _ db.rooms rooms db.stays same stays),
          IsSound-rooms _ _ db.rooms rooms db.payments same payments,
          IsSound-snoc _ _ rooms db.audit_events entry (ground arith) here
              (IsSound-rooms _ _ db.rooms rooms db.audit_events same events),
        )
