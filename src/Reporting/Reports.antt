-- ===== src/Reporting/Reports.antt =====
-- exports.service.ts: which rows a report holds. The drawing of the PDF and of the Excel cells is
-- left out, and so is the order of the rows.
use fsf_acreditation_backend.Base.{
  ◌-◌, ◌/◌, Option, none, some, List, [], ◌∷◌, map, ◌&&◌, ◌==◌, nat_eq, option_eq, list_eq,
  includes,
}
use fsf_acreditation_backend.Store.{
  Prisma, Action, Database, pure, gets, ◌>>=◌, Uuid, Instant, Text, AccreditationRequest, ScanLog,
  scan_result_eq, RequestStatus, request_status_eq, user_key, request_key, accreditation_key,
}
use fsf_acreditation_backend.Accreditations.Numbering.{decimal}
use fsf_acreditation_backend.Notifications.Listener.{join_comma}
use fsf_acreditation_backend.Reporting.Dashboard.{
  DashboardFilter, pending_statuses, request_filter, badge_filter,
}
use fsf_acreditation_backend.Reporting.Labels.{
  ReportKey, report_title, ScanKind, result_fits, requester_name, media_name, label_of_match,
  category_label, zone_label, user_label, scan_filter, DateFormat, iso_or_empty, status_name,
  badge_status_name, result_name, text_or_empty,
}
use fsf_acreditation_backend.Reporting.Scope.{describe_scope}

-- A row of a report: the values of its columns, in order.
abbrev pub Row : Type 0
Row = List Text

module _ (db : Prisma) (dates : DateFormat) where
  -- `loadRequests`
  unfoldable pub load_requests : DashboardFilter → Action (List Row)
  load_requests filter = gets (λ s.
      map
        (λ r.
          r.unique_reference
          ∷ requester_name db s r.requester_id
          ∷ media_name db s r.requester_id
          ∷ label_of_match db s r.match_id
          ∷ category_label db s r.category_requested_id
          ∷ status_name r.status
          ∷ iso_or_empty dates r.submitted_at
          ∷ iso_or_empty dates r.decision_at
          ∷ [])
        (db.find_many (request_filter db s filter) s.requests))

  -- A label of the request of a badge, which the schema requires.
  abbrev of_badge : Database → (AccreditationRequest → Text) → Uuid → Text
  of_badge s label request_id = elim (db.find_unique (request_key request_id) s.requests) [
    | none ↦ []
    | some r ↦ label r
  ]

  -- `loadAccredited`
  unfoldable pub load_accredited : DashboardFilter → Action (List Row)
  load_accredited filter = gets (λ s.
      map
        (λ a.
          a.number
          ∷ badge_status_name a.status
          ∷ of_badge s (λ r. requester_name db s r.requester_id) a.request_id
          ∷ of_badge s (λ r. media_name db s r.requester_id) a.request_id
          ∷ of_badge s (λ r. label_of_match db s r.match_id) a.request_id
          ∷ of_badge s (λ r. category_label db s r.category_requested_id) a.request_id
          ∷ join_comma (
              map (λ z. zone_label db s z.zone_id)
                (db.find_many (λ z. z.accreditation_id == a.id) s.accreditation_zones))
          ∷ dates.to_iso_string a.issued_at
          ∷ dates.to_iso_string a.expires_at
          ∷ [])
        (db.find_many (badge_filter db s filter) s.accreditations))

  -- `r.decisionById ? (deciderLabels.get(r.decisionById) ?? r.decisionById) : ''`; the identifier
  -- itself stands for a decider who is gone.
  abbrev decided_by : (Uuid → Text) → Database → Option Uuid → Text
  decided_by id_text s none = []
  decided_by id_text s (some id) = elim (db.find_unique (user_key id) s.users) [
    | none ↦ id_text id
    | some u ↦ user_label db s u
  ]

  -- `loadRejected`
  unfoldable pub load_rejected : (Uuid → Text) → DashboardFilter → Action (List Row)
  load_rejected id_text filter = gets (λ s.
      map
        (λ r.
          r.unique_reference
          ∷ requester_name db s r.requester_id
          ∷ media_name db s r.requester_id
          ∷ label_of_match db s r.match_id
          ∷ category_label db s r.category_requested_id
          ∷ iso_or_empty dates r.decision_at
          ∷ decided_by id_text s r.decision_by_id
          ∷ text_or_empty r.decision_reason
          ∷ [])
        (db.find_many (λ r. request_filter db s filter r && r.status == RequestStatus.rejected)
          s.requests))

  -- `Math.floor((now - submittedAt) / 86_400_000)`, for a request that was submitted before now.
  abbrev days_pending : Instant → Option Instant → Text
  days_pending now none = []
  days_pending now (some t) = decimal ((now - t) / 86400000)

  -- `loadPending`
  unfoldable pub load_pending : Instant → DashboardFilter → Action (List Row)
  unfolding decimal
  load_pending now filter = gets (λ s.
      map
        (λ r.
          r.unique_reference
          ∷ requester_name db s r.requester_id
          ∷ media_name db s r.requester_id
          ∷ label_of_match db s r.match_id
          ∷ category_label db s r.category_requested_id
          ∷ status_name r.status
          ∷ iso_or_empty dates r.submitted_at
          ∷ days_pending now r.submitted_at
          ∷ [])
        (db.find_many (λ r. request_filter db s filter r && includes pending_statuses r.status)
          s.requests))

-- The scans that `loadScans` lists.
unfoldable pub find_scans : Prisma → DashboardFilter → ScanKind → Database → List ScanLog
find_scans db filter kind s =
    db.find_many (λ x. scan_filter db s filter x && result_fits kind x.result) s.scan_logs

module _ (db : Prisma) (dates : DateFormat) where
  -- A label of the request of the badge of a scan; nothing where no badge was recognised.
  abbrev of_scan : Database → (AccreditationRequest → Text) → Option Uuid → Text
  of_scan s label none = []
  of_scan s label (some id) = elim (db.find_unique (accreditation_key id) s.accreditations) [
    | none ↦ []
    | some a ↦ elim (db.find_unique (request_key a.request_id) s.requests) [
      | none ↦ []
      | some r ↦ label r
    ]
  ]

  abbrev agent_label : Database → Uuid → Text
  agent_label s id = elim (db.find_unique (user_key id) s.users) [
    | none ↦ []
    | some u ↦ user_label db s u
  ]

  abbrev zone_of_scan : Database → Option Uuid → Text
  zone_of_scan s none = []
  zone_of_scan s (some id) = zone_label db s id

  abbrev scan_row : Database → ScanLog → Row
  scan_row s x =
      dates.to_iso_string x.scanned_at
      ∷ label_of_match db s x.match_id
      ∷ result_name x.result
      ∷ text_or_empty x.reason
      ∷ zone_of_scan s x.zone_id
      ∷ text_or_empty x.gate
      ∷ agent_label s x.scanned_by_id
      ∷ of_scan s (λ r. requester_name db s r.requester_id) x.accreditation_id
      ∷ of_scan s (λ r. media_name db s r.requester_id) x.accreditation_id
      ∷ of_scan s (λ r. category_label db s r.category_requested_id) x.accreditation_id
      ∷ []

  -- `loadScans`
  unfoldable pub load_scans : DashboardFilter → ScanKind → Action (List Row)
  unfolding find_scans
  load_scans filter kind = gets (λ s. map (scan_row s) (find_scans db filter kind s))

-- `TabularReport`, less its columns.
pub record TabularReport : Type 0 where
  pub title : Text
  pub scope : Text
  pub rows : List Row

module _ (db : Prisma) (dates : DateFormat) (id_text : Uuid → Text) where
  unfoldable pub load_rows : Instant → ReportKey → DashboardFilter → Action (List Row)
  unfolding load_requests load_accredited load_rejected load_pending load_scans
  load_rows now ReportKey.requests filter = load_requests db dates filter
  load_rows now ReportKey.accredited filter = load_accredited db dates filter
  load_rows now ReportKey.rejected filter = load_rejected db dates id_text filter
  load_rows now ReportKey.pending filter = load_pending db dates now filter
  load_rows now ReportKey.entries filter = load_scans db dates filter ScanKind.entries
  load_rows now ReportKey.anomalies filter = load_scans db dates filter ScanKind.anomalies

  -- `buildReport`
  unfoldable pub build_report : Instant → ReportKey → DashboardFilter → Action TabularReport
  unfolding describe_scope load_rows report_title
  build_report now report filter = do
    scope ← describe_scope db dates filter
    rows ← load_rows now report filter
    pure (record { title = report_title report; scope = scope; rows = rows })
