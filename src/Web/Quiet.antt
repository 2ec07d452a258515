-- ===== src/Web/Quiet.antt =====
-- A request with the method GET only reads.
use ccs2_plus.Prelude.{
  ◌+◌, eq_iff, Bool-cases, inl, inr, ◌≡◌, refl, sym, ap, ◌∙◌, String, Bool, true, false, ◌||◌,
  Option, none, some, List, [], ◌∷◌, ◌==◌, if◌then◌else◌,
}
use mathlib.Core.Path.{subst}
use ccs2_plus.Prelude.Float.{Float64}
use ccs2_plus.Database
use ccs2_plus.Database.{Time, Db, Collation, Conn, Result}
use ccs2_plus.Reports.{DriveConfig, Books}
use ccs2_plus.Reports.Settings.{get_google_drive_config}
use ccs2_plus.Reports.Reading.{SameBooks, get_google_drive_config-Reads}
use ccs2_plus.Events.{EventBroker, subscribe}
use ccs2_plus.Server.{Clock}
use ccs2_plus.Web.{Request, Page, not_found, DriveRequest, Site, books_of, with_books}
use ccs2_plus.Web.Drive.{drive_answer, drive_in, handle_google_drive_config}
use ccs2_plus.Web.Serve.{
  Pattern, ping, events, state, audit_events, alerts, config_gdrive, rooms_without_slash, rooms,
  all_else, pattern_of, handle, on_get, room_parts, handle_rooms, handle_room_detail,
  handle_dashboard, route,
}
use ccs2_plus.Web.Paths.{behind, is_some, trim_prefix, trim_slashes, split_slash}

-- A broker with a new channel.
abbrev pub with_channel : EventBroker → EventBroker
with_channel b = record {
  subscribers = (record { name = b.next; buffer = [] }) ∷ b.subscribers;
  next = b.next + 1;
}

-- The broker after a request of a pattern: the stream has a channel more, with nothing in it.
abbrev watched : Pattern → EventBroker → EventBroker
watched ping b = b
watched events b = with_channel b
watched state b = b
watched audit_events b = b
watched alerts b = b
watched config_gdrive b = b
watched rooms_without_slash b = b
watched rooms b = b
watched all_else b = b

same_if :
    (x : EventBroker) (b : Bool) (p q : Pattern)
    → watched p x ≡ x
    → watched q x ≡ x
    → watched (if b then p else q) x ≡ x
same_if x true p q hp hq = hp
same_if x false p q hp hq = hq

watched-pattern_of :
    (path : String) (x : EventBroker)
    → watched (pattern_of path) x ≡ (if path == "/events" then with_channel x else x)
unfolding pattern_of
watched-pattern_of path x = elim (Bool-cases (path == "/events")) [
  | inl e ↦
      let here : path ≡ "/events" = (eq_iff path "/events").0 e in
      subst (λ t. watched (pattern_of t) x ≡ (if t == "/events" then with_channel x else x))
        (sym here) refl
  | inr e ↦ rw e (
      same_if x (path == "/ping") ping _ refl (
        same_if x (path == "/api/state") state _ refl (
          same_if x (path == "/api/audit/events") audit_events _ refl (
            same_if x (path == "/api/alerts") alerts _ refl (
              same_if x (path == "/api/config/gdrive") config_gdrive _ refl (
                same_if x (path == "/api/rooms") rooms_without_slash _ refl
                  (same_if x (is_some (behind "/api/rooms/" path)) rooms all_else refl refl)))))))
]

module _ {A : Type 0} where
  abbrev committed_in : Option (Conn A) → Option (Db A)
  committed_in none = none
  committed_in (some c) = some c.committed

  -- Everything is as it was, except for the failures of the driver that are still to come, and for the
  -- events, which are those of the given broker.
  pub record Quiet (broker : EventBroker) (site site' : Site A) : Type 0 where
    pub state : site'.server.state ≡ site.server.state
    pub transport : site'.server.transport ≡ site.server.transport
    pub events : site'.server.events ≡ broker
    pub committed : committed_in site'.server.store ≡ committed_in site.server.store
    pub report_runs : site'.report_runs ≡ site.report_runs
    pub export_runs : site'.export_runs ≡ site.export_runs
    pub app_settings : site'.app_settings ≡ site.app_settings

  Quiet-refl : (site : Site A) → Quiet site.server.events site site
  Quiet-refl site = record {
    state = refl;
    transport = refl;
    events = refl;
    committed = refl;
    report_runs = refl;
    export_runs = refl;
    app_settings = refl;
  }

  -- An answer whose site is quiet.
  record Answer (broker : EventBroker) (site : Site A) (p : Page A × Site A) : Type 0 where
    quiet : Quiet broker site p.1

  Answer-if :
      {broker : EventBroker} {site : Site A} {p q : Page A × Site A} (b : Bool)
      → Answer broker site p
      → Answer broker site q
      → Answer broker site (if b then p else q)
  Answer-if true h k = h
  Answer-if false h k = k

  Answer-refl : {site : Site A} {page : Page A} → Answer site.server.events site (page, site)
  Answer-refl {site} = record { quiet = Quiet-refl site }

  with_books-Quiet :
      (site : Site A) (c : Conn A) (b : Books A)
      → site.server.store ≡ some c
      → SameBooks (books_of site c) b
      → Quiet site.server.events site (with_books site b)
  with_books-Quiet site c b e (faults, same) = record {
    state = refl;
    transport = refl;
    events = refl;
    committed = ap (λ x. some x.conn.committed) same ∙ ap committed_in (sym e);
    report_runs = ap (λ x. x.report_runs) same;
    export_runs = ap (λ x. x.export_runs) same;
    app_settings = ap (λ x. x.app_settings) same;
  }

  drive_answer-Quiet :
      (code : String) (site : Site A) (c : Conn A) (p : Result DriveConfig × Books A)
      → site.server.store ≡ some c
      → SameBooks (books_of site c) p.1
      → Quiet site.server.events site (drive_answer code site p).1
  drive_answer-Quiet code site c (Database.ok cfg, b) e s = with_books-Quiet site c b e s
  drive_answer-Quiet code site c (Database.err x, b) e s = with_books-Quiet site c b e s

  drive_in-Answer :
      (now : Time) (body : Option DriveRequest) (site : Site A) (o : Option (Conn A))
      → site.server.store ≡ o
      → Answer site.server.events site (drive_in "GET" now body site o)
  drive_in-Answer now body site none e = Answer-refl
  drive_in-Answer now body site (some c) e = record {
    quiet =
        drive_answer-Quiet "CONFIG_READ_FAILED" site c (get_google_drive_config (books_of site c)) e
          (get_google_drive_config-Reads (books_of site c));
  }

module _ {A : Type 0} ⦃f : Float64 A⦄ ⦃o : Collation⦄ where
  room_parts-Answer :
      (clock : Clock) (r : Request A) (site : Site A) (parts : List String)
      → r.method ≡ "GET"
      → Answer site.server.events site (room_parts clock r site parts)
  unfolding handle_room_detail
  room_parts-Answer clock r site [] h = Answer-refl
  room_parts-Answer clock r site (room_id ∷ []) h =
      Answer-if (r.method == "GET") Answer-refl Answer-refl
  room_parts-Answer clock r site (room_id ∷ action ∷ []) h =
      let no_post : (r.method == "POST") ≡ false =
        subst (λ m. (m == "POST") ≡ false) (sym h) refl in
      rw no_post Answer-refl
  room_parts-Answer clock r site (a ∷ b ∷ c ∷ parts) h = Answer-refl

  drive-Answer :
      (now : Time) (r : Request A) (site : Site A)
      → r.method ≡ "GET"
      → Answer site.server.events site (drive_in r.method now r.as_drive site site.server.store)
  drive-Answer now r site h =
      subst (λ m. Answer site.server.events site (drive_in m now r.as_drive site site.server.store))
        (sym h) (drive_in-Answer now r.as_drive site site.server.store refl)

  on_get-Answer :
      (r : Request A) (site : Site A) (page : Page A)
      → Answer site.server.events site (on_get r site page)
  on_get-Answer r site page =
      Answer-if {p = (page, site)} {q = (not_found, site)} (r.method == "GET") Answer-refl
        Answer-refl

  dashboard-Answer :
      (is_file : String → Bool) (r : Request A) (site : Site A)
      → Answer site.server.events site (handle_dashboard is_file r site)
  unfolding handle_dashboard
  dashboard-Answer is_file r site =
      Answer-if {q = (not_found, site)} (r.method == "GET" || r.method == "HEAD") Answer-refl
        Answer-refl

  handle-Answer :
      (is_file : String → Bool) (clock : Clock) (r : Request A) (site : Site A) (p : Pattern)
      → r.method ≡ "GET"
      → Answer (watched p site.server.events) site (handle is_file clock r site p)
  unfolding handle_rooms handle_google_drive_config subscribe
  handle-Answer is_file clock r site ping h = Answer-refl
  handle-Answer is_file clock r site events h =
      let get : (r.method == "GET") ≡ true = subst (λ m. (m == "GET") ≡ true) (sym h) refl in
      rw get (record {
        quiet = record {
          state = refl;
          transport = refl;
          events = refl;
          committed = refl;
          report_runs = refl;
          export_runs = refl;
          app_settings = refl;
        };
      })
  handle-Answer is_file clock r site state h = on_get-Answer r site _
  handle-Answer is_file clock r site audit_events h = on_get-Answer r site _
  handle-Answer is_file clock r site alerts h = on_get-Answer r site _
  handle-Answer is_file clock r site config_gdrive h = drive-Answer clock.now r site h
  handle-Answer is_file clock r site rooms_without_slash h = Answer-refl
  handle-Answer is_file clock r site rooms h =
      room_parts-Answer clock r site (split_slash (trim_slashes (trim_prefix r.path "/api/rooms/")))
        h
  handle-Answer is_file clock r site all_else h =
      Answer-if {p = (not_found, site)} (site.dashboard == "") Answer-refl
        (dashboard-Answer is_file r site)

  -- A request with the method GET leaves the rooms in memory, the bus and all committed tables as they
  -- are, and the channels of all subscribers with what waits in them; for the path of the stream there
  -- is one channel more, with nothing in it.
  pub route-Quiet :
      (is_file : String → Bool) (clock : Clock) (r : Request A) (site : Site A)
      → r.method ≡ "GET"
      → Quiet
          (if r.path == "/events" then with_channel site.server.events else site.server.events)
          site
          (route is_file clock r site).1
  unfolding route
  route-Quiet is_file clock r site h =
      let no_options : (r.method == "OPTIONS") ≡ false =
        subst (λ m. (m == "OPTIONS") ≡ false) (sym h) refl in
      rw no_options (
        subst (λ b. Quiet b site (handle is_file clock r site (pattern_of r.path)).1)
          (watched-pattern_of r.path site.server.events)
          (handle-Answer is_file clock r site (pattern_of r.path) h).quiet)
