-- ===== src/Reports/Reading.antt =====
-- The calls of the reports that only read: they leave the books as they are, less the failures of the
-- driver that they meet.
use ccs2_plus.Prelude.{
  ◌≡◌, refl, ap, String, Bool, true, false, List, Option, none, some, if◌then◌else◌,
}
use mathlib.Core.Path.{subst}
use ccs2_plus.Database.{Time, Collation, Result, ok, err, io, next_fault, Conn, drawn}
use ccs2_plus.Database.Reads.{list_rooms, scan_rooms, sort_rows, scanned}
use ccs2_plus.Reports.{
  Location, PeriodKey, Books, Call, spent, call, after, and_then, returns, on_conn,
}
use ccs2_plus.Reports.Listings.{
  read_rows, picked, gathered, query_stays, query_payments, query_audits, StayRecord, PaymentRecord,
  list_stays_by_date, list_payments_by_date, list_audit_by_date, list_stays_by_date_range,
  list_stays_by_month, list_payments_all, list_audit_all, list_payments_by_month,
  list_audit_by_month, daily_workbook_data, monthly_workbook_data,
}
use ccs2_plus.Database.Reads.{RoomRecord, AuditRecord}
use ccs2_plus.Reports.Settings.{get_google_drive_config, found_setting, decoded_setting}
use ccs2_plus.Reports.{Setting, TimeText, SettingText, json_of, plain}

module _ {A : Type 0} where
  abbrev pub with_faults : List Bool → Books A → Books A
  with_faults faults b = record b { conn = record b.conn { faults = faults } }

  abbrev pub SameBooks : Books A → Books A → Type 0
  SameBooks b b' = (faults : List Bool) × (b' ≡ with_faults faults b)

  abbrev pub Reads : {R : Type 0} → Call A R → Type 0
  Reads m = (b : Books A) → SameBooks b (m b).1

  pub SameBooks-trans : (b c d : Books A) → SameBooks b c → SameBooks c d → SameBooks b d
  SameBooks-trans b c d (fs, e) (gs, e') = (gs, subst (λ x. d ≡ with_faults gs x) e e')

  pub returns-Reads : {R : Type 0} (r : R) → Reads (returns r)
  unfolding returns
  returns-Reads r b = (b.conn.faults, refl)

  pub call-Reads :
      {R : Type 0} (context : String) (f : Books A → R) → Reads (call context (λ b. (f b, b)))
  unfolding call
  call-Reads {R} context f b = by_test (next_fault b.conn.faults)
    where
      by_test :
          (x : Bool)
          → SameBooks b
              (if◌then◌else◌ {A = Result R × Books A} x
                (err (record { context = context; cause = io }), spent b)
                (ok (f (spent b)), spent b)).1
      by_test true = ((spent b).conn.faults, refl)
      by_test false = ((spent b).conn.faults, refl)

  after-Reads :
      {R S : Type 0} (f : R → Call A S) (b : Books A) (p : Result R × Books A)
      → ((r : R) → Reads (f r))
      → SameBooks b p.1
      → SameBooks b (after f p).1
  after-Reads f b (ok r, c) h s = SameBooks-trans b c (f r c).1 s (h r c)
  after-Reads f b (err e, c) h s = s

  pub and_then-Reads :
      {R S : Type 0} (m : Call A R) (f : R → Call A S)
      → Reads m
      → ((r : R) → Reads (f r))
      → Reads (and_then m f)
  unfolding and_then
  and_then-Reads m f h k b = after-Reads f b (m b) k (h b)

  pub read_rows-Reads : {R : Type 0} (context : String) (o : Option R) → Reads (read_rows context o)
  read_rows-Reads context none b = (b.conn.faults, refl)
  read_rows-Reads context (some r) b = (b.conn.faults, refl)

  picked-Reads :
      {R : Type 0} (test : R → Bool) (m : Call A (List R)) → Reads m → Reads (picked test m)
  picked-Reads test m h = and_then-Reads m _ h (λ r. returns-Reads _)

  scanned_conn :
      {R : Type 0} (context : String) (o : Option R) (c : Conn A) → (scanned context o c).1 ≡ c
  scanned_conn context none c = refl
  scanned_conn context (some r) c = refl

  list_rooms_conn :
      (c : Conn A) → (faults : List Bool) × ((list_rooms c).1 ≡ record c { faults = faults })
  unfolding list_rooms
  list_rooms_conn c = by_test (next_fault c.faults)
    where
      by_test :
          (x : Bool)
          → (faults : List Bool) × ((if◌then◌else◌ {A = Result (List (RoomRecord A)) × Conn A} x
                (err (record { context = "list rooms"; cause = io }), drawn c)
                (scanned "parse room updated_at"
                  (scan_rooms (sort_rows c.committed.rooms))
                  (drawn c))).1
              ≡ record c { faults = faults })
      by_test true = ((drawn c).faults, refl)
      by_test false =
          ((drawn c).faults, scanned_conn _ (scan_rooms (sort_rows c.committed.rooms)) _)

  list_rooms-Reads : Reads (on_conn (list_rooms {A = A}))
  list_rooms-Reads b =
      let (faults, e) = list_rooms_conn b.conn in (faults, ap (λ c. record b { conn = c }) e)

  gathered-Reads :
      (period : PeriodKey) (stays : Call A (List (StayRecord A)))
      (payments : Call A (List (PaymentRecord A))) (audits : Call A (List AuditRecord))
      → Reads stays
      → Reads payments
      → Reads audits
      → Reads (gathered period stays payments audits)
  unfolding gathered
  gathered-Reads period stays payments audits hs hp ha =
      and_then-Reads _ _ list_rooms-Reads λ rooms.
        and_then-Reads _ _ hs
          λ s. and_then-Reads _ _ hp λ p. and_then-Reads _ _ ha λ a. returns-Reads _

  decoded_setting-Reads : (t : TimeText) (v : SettingText) → Reads (decoded_setting {A = A} t v)
  decoded_setting-Reads t (json_of cfg) b = (b.conn.faults, refl)
  decoded_setting-Reads t (plain x) b = (b.conn.faults, refl)

  found_setting-Reads : (o : Option Setting) → Reads (found_setting {A = A} o)
  found_setting-Reads none b = (b.conn.faults, refl)
  found_setting-Reads (some row) b = decoded_setting-Reads row.updated_at row.value b

  pub get_google_drive_config-Reads : Reads (get_google_drive_config {A = A})
  unfolding get_google_drive_config
  get_google_drive_config-Reads = and_then-Reads _ _ (call-Reads _ _) found_setting-Reads

  module _ ⦃o : Collation⦄ where
    query_stays-Reads : (query parsing : String) → Reads (query_stays {A = A} query parsing)
    query_stays-Reads query parsing =
        and_then-Reads _ _ (call-Reads query _) (λ rows. read_rows-Reads parsing _)

    query_payments-Reads : (query parsing : String) → Reads (query_payments {A = A} query parsing)
    query_payments-Reads query parsing =
        and_then-Reads _ _ (call-Reads query _) (λ rows. read_rows-Reads parsing _)

    query_audits-Reads : (query parsing : String) → Reads (query_audits {A = A} query parsing)
    query_audits-Reads query parsing =
        and_then-Reads _ _ (call-Reads query _) (λ rows. read_rows-Reads parsing _)

    pub daily_workbook_data-Reads :
        (loc : Location) (day : Time) → Reads (daily_workbook_data {A = A} loc day)
    unfolding daily_workbook_data list_stays_by_date list_payments_by_date list_audit_by_date
    daily_workbook_data-Reads loc day =
        gathered-Reads _ _ _ _ (picked-Reads _ _ (query_stays-Reads _ _))
          (picked-Reads _ _ (query_payments-Reads _ _)) (picked-Reads _ _ (query_audits-Reads _ _))

    pub monthly_workbook_data-Reads :
        (loc : Location) (month : Time) → Reads (monthly_workbook_data {A = A} loc month)
    unfolding monthly_workbook_data list_stays_by_month list_stays_by_date_range
        list_payments_by_month list_payments_all list_audit_by_month list_audit_all
    monthly_workbook_data-Reads loc month =
        gathered-Reads _ _ _ _ (picked-Reads _ _ (query_stays-Reads _ _))
          (picked-Reads _ _ (query_payments-Reads _ _)) (picked-Reads _ _ (query_audits-Reads _ _))
