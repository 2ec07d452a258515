-- ===== src/Lib.antt =====
-- The Go back end of the hotel room controller (go-backend): requests of the cashier and the
-- maids switch the relays of the rooms over an RS-485 bus, are recorded in an SQLite database, and
-- change the rooms in memory, which the dashboards follow by a stream of events.
--
-- The parts, from the bus upwards:
--   * Legacy is internal/legacy (types.go, mapping.go, payload.go, frame.go): `semantic_to_legacy`,
--     `set_port_status`, `build_slave_frame` and `build_display_frame` are SemanticToLegacy,
--     SetPortStatus, BuildSlaveFrame and BuildDisplayFrame. A payload is a number with the 16 bits
--     written out.
--   * RoomMap is internal/roommap/roommap.go, the mapping of a room to its card and port.
--   * Transport is internal/transport/service.go and writer_memory.go: `apply_intent` is ApplyIntent, with
--     its cache of payloads. Each call of WriteFrame has one of three outcomes, from a list that the
--     writer carries: written, refused, or written with the context ending after it. Serial is
--     serial_writer_linux.go, with the answers of the system as arguments.
--   * StateStore is `stateStore` of internal/httpapi/server.go with its methods; Audit has the audit
--     list and the alerts, Views what is read off for the dashboards, Fresh which rooms a table has.
--   * Events is the broker of internal/httpapi/events.go, with 16 places for each subscriber.
--   * Database is internal/store/store.go: Database has the tables, the connection and `with_tx`
--     (withTx), Statements the SQL statements as functions on the tables, Record the operations RecordCheckIn,
--     RecordCheckOut, RecordExtend, RecordPayment and RecordCommand, Tables their description as one
--     step each, and Reads the queries of the start (ListRooms, ListRecentAudit, Bootstrap). The
--     connection carries a list that says which of the next calls of the driver fail. Seed is Open with
--     seedRooms. Atomic, Steps and Effects relate
--     the operations to Tables, Keys, Integrity and Runs are about the keys, Active about the stays in use.
--   * Server is the part of internal/httpapi/server.go that handles the requests that change state; its
--     handlers call Transport, Database, StateStore and Events in the order of the code. Times are read
--     from a record `Clock` with one field for each call of time.Now in a handler. Restore is
--     newStateStoreFromStore; Unchanged is about failed requests, and Agreement, Mirror, Matches and
--     Mirrored with Fits, Start and Restart about the rooms in memory and in the database.
--   * Reports is the rest of store.go, and internal/reporting/exporter.go: the calendar of a location,
--     Runs with the rows of report_runs and export_runs, Candidates with the days and months that are
--     due, Listings with the reads for a workbook, Settings with GetGoogleDriveConfig and
--     SaveGoogleDriveConfig, Sheets and Workbooks with the rows of the sheets, Export with ExportDate,
--     ExportMonth, runPending and nextRunAt, Daemon with the rounds of Start. Activity says
--     what happened on a day. The other files below it are about these.
--   * Web has the routes of server.go around the handlers: Paths the functions on paths, Drive
--     handleGoogleDriveConfig, Serve withCORS, Handler, handleRooms, the handlers that read and
--     handleDashboard, Stream the session of handleEvents. Quiet, Enabled, Ordered and
--     Closed are about these.
--   * Boot is main.go with internal/config (app.go, roommap_loader.go) and NewServerWithStore: `start`
--     is main on an accepted configuration. Known is about the rooms that a start has in memory.
--   * Mock is cmd/mock-scenario/main.go, the back end with which the apps are tried: `apply_action` is
--     applyAction, Scenarios has handleRooms and what it publishes, Steady is about its state.
--   * Prelude has the shared helpers: numbers with 64 bits (Int), amounts of money (Float, the laws of
--     float64 that the code needs), bits, tables with string keys, lists (Ascending, Among) and texts. Examples has tests and instances.
--
-- Recursion is structural on lists, texts and numbers everywhere. `decimal` alone has fuel, for 41
-- digits, where the numbers that it prints (counters, times, 64-bit integers) have at most 20. Numbers of
-- Go's type `int` are integers with the wrap at 64 bits written out. JSON arrives decoded, `none` where
-- the body does not decode. A time is the count of nanoseconds from year 1.
--
-- Given as arguments: the file system, the workbook library, the Drive client, the system calls of the
-- serial device, the time zone database, and the order of texts in SQLite (Collation).
--
-- Not modelled: handlers that run at the same time (a handler is one step; ApplyIntent takes no
-- lock, so two requests may meet in its cache; the rounds of the reports come between requests),
-- time zones whose offset changes, the styles of a workbook beyond its header, the text forms of JSON and of
-- the event stream, the closing of the device and of the database, the channels of the mock back end, and
-- everything outside go-backend.
pub mod Prelude
pub mod Legacy
pub mod RoomMap
pub mod Transport
pub mod StateStore
pub mod Database
pub mod Reports
pub mod Events
pub mod Server
pub mod Web
pub mod Boot
pub mod Mock
pub mod Examples
