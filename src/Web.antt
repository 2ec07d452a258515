-- ===== src/Web.antt =====
-- The routes of go-backend/internal/httpapi/server.go around the handlers that change state: `Handler`,
-- withCORS, handleRooms, the handlers that read, handleGoogleDriveConfig and handleDashboard, and
-- the stream of handleEvents in events.go.
pub mod Paths
pub mod Drive
pub mod Serve
pub mod Quiet
pub mod Enabled
pub mod Stream
pub mod Ordered
pub mod Closed
use ccs2_plus.Prelude.{ℕ, String, Bool, Option, List}
use ccs2_plus.Prelude.Float.{Float64}
use ccs2_plus.StateStore.{RoomState, AuditEvent, AlertItem}
use ccs2_plus.StateStore.Views.{FullState}
use ccs2_plus.Database.{Conn, StoreError}
use ccs2_plus.Reports.{ReportRun, ExportRun, Setting, Books}
use ccs2_plus.Server.{
  CheckInRequest, CheckoutRequest, RoomCommandRequest, ExtendRequest, PaymentRequest, Response,
  Server,
}

-- `googleDriveConfigRequest`.
pub record DriveRequest : Type 0 where
  pub credentials_path : String
  pub folder_id : String
  pub enabled : Bool

-- `googleDriveConfigPayload`, with no text for the zero time.
pub record DrivePayload : Type 0 where
  pub credentials_path : String
  pub folder_id : String
  pub enabled : Bool
  pub updated_at : Option ℕ
  pub configured : Bool

-- A request with its method, its path as the router leaves it, the parameter `room_id` of its query,
-- and what its body decodes to as each kind of request.
pub record Request (A : Type 0) : Type 0 where
  pub method : String
  pub path : String
  pub room_id : String
  pub as_check_in : Option (CheckInRequest A)
  pub as_checkout : Option CheckoutRequest
  pub as_command : Option RoomCommandRequest
  pub as_extend : Option (ExtendRequest A)
  pub as_payment : Option (PaymentRequest A)
  pub as_drive : Option DriveRequest

pub data DriveError : Type 0 where
  no_store bad_body incomplete : DriveError
  of_store : StoreError → DriveError

-- What a request is answered with.
pub data Page (A : Type 0) : Type 0 where
  answered : Response A → Page A
  not_found : Page A
  no_content : Page A
  moved : String → Page A
  pong : ℕ → Page A
  state_page : FullState → Page A
  audit_page : List AuditEvent → Page A
  alert_page : List AlertItem → Page A
  room_page : RoomState A → Page A
  drive_page : DrivePayload → Page A
  drive_failure : (status : ℕ) (code : String) (error : DriveError) → Page A
  file : String → Page A
  stream : ℕ → Page A

-- The server with the tables of its database that are not those of the rooms, and the directory of
-- the dashboard.
pub record Site (A : Type 0) : Type 0 where
  pub server : Server A
  pub report_runs : List ReportRun
  pub export_runs : List ExportRun
  pub app_settings : List Setting
  pub dashboard : String

module _ {A : Type 0} where
  abbrev pub books_of : Site A → Conn A → Books A
  books_of site conn = record {
    conn = conn;
    report_runs = site.report_runs;
    export_runs = site.export_runs;
    app_settings = site.app_settings;
  }

  abbrev pub with_books : Site A → Books A → Site A
  with_books site b = record site {
    server = record site.server { store = Option.some b.conn };
    report_runs = b.report_runs;
    export_runs = b.export_runs;
    app_settings = b.app_settings;
  }
