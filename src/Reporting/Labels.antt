-- ===== src/Reporting/Labels.antt =====
-- exports.service.ts: the names that reports and their sheets carry, the filter of scans, and what
-- stands in a cell for an identifier.
use fsf_acreditation_backend.Base.{
  ℕ, Bool, false, Option, none, some, [], ◌∷◌, ◌++◌, map, not, ◌&&◌, ◌||◌, ◌==◌, nat_eq, option_eq,
  list_eq, String, is_some, text, if◌then◌else◌,
}
use fsf_acreditation_backend.Kernel.Listing.{filter_eq, take}
use fsf_acreditation_backend.Store.{
  Prisma, Database, Uuid, Instant, Text, AccreditationStatus, ScanLog, ScanResult, scan_result_eq,
  RequestStatus, request_status_eq, User, match_key, category_key, zone_key, media_key, profile_key,
  accreditation_key,
}
use fsf_acreditation_backend.Notifications.Listener.{match_label}
use fsf_acreditation_backend.Reporting.Dashboard.{DashboardFilter, badge_filter}

-- `ReportKey`
pub data ReportKey : Type 0 where
  requests accredited rejected pending entries anomalies : ReportKey

-- `REPORT_TITLES`
unfoldable pub report_title : ReportKey → Text
report_title requests = text "Toutes les demandes"
report_title accredited = text "Accredites par match / media / categorie"
report_title rejected = text "Demandes refusees"
report_title pending = text "Dossiers en attente"
report_title entries = text "Entrees controlees (scans valides)"
report_title anomalies = text "Anomalies de controle d'acces"

-- `kind` of `loadScans`
pub data ScanKind : Type 0 where
  entries anomalies : ScanKind

abbrev pub result_fits : ScanKind → ScanResult → Bool
result_fits entries result = result == ScanResult.valid
result_fits anomalies result = not (result == ScanResult.valid)

-- `Object.keys(requestWhere).length > 0`
abbrev pub has_request_filter : DashboardFilter → Bool
has_request_filter filter =
    is_some filter.category_id || (is_some filter.competition_id || is_some filter.media_id)

-- `report.title.replace(/[*?:\\/[\]]/g, '-').slice(0, 31) || 'Rapport'`
abbrev pub is_forbidden : ℕ → Bool
is_forbidden c =
    c == b'*' || (c == b'?' || (c == b':' || (c == 92 || (c == b'/' || (c == b'[' || c == b']')))))

abbrev pub sheet_char : ℕ → ℕ
sheet_char c = if is_forbidden c then b'-' else c

abbrev pub or_report : Text → Text
or_report [] = text "Rapport"
or_report (c ∷ cs) = c ∷ cs

unfoldable pub sheet_name : Text → Text
unfolding take
sheet_name title = or_report (take 31 (map sheet_char title))

-- The labels that the reports take from related rows. Those that the schema requires are there.
module _ (db : Prisma) (s : Database) where
  abbrev pub requester_name : Uuid → Text
  requester_name id = elim (db.find_unique (profile_key id) s.profiles) [
    | none ↦ []
    | some p ↦ p.first_name ++ (b' ' ∷ p.last_name)
  ]

  abbrev pub media_name : Uuid → Text
  media_name id = elim (db.find_unique (profile_key id) s.profiles) [
    | none ↦ []
    | some p ↦ elim (db.find_unique (media_key p.media_id) s.media) [ none ↦ [] | some m ↦ m.name ]
  ]

  abbrev pub label_of_match : Uuid → Text
  label_of_match id = elim (db.find_unique (match_key id) s.matches) [
    | none ↦ []
    | some m ↦ match_label m
  ]

  abbrev pub category_label : Uuid → Text
  category_label id = elim (db.find_unique (category_key id) s.categories) [
    | none ↦ []
    | some c ↦ text c.label
  ]

  abbrev pub zone_label : Uuid → Text
  zone_label id = elim (db.find_unique (zone_key id) s.zones) [ none ↦ [] | some z ↦ text z.label ]

  -- `u.displayName ?? u.email`
  abbrev pub user_label : User → Text
  user_label u = elim u.display_name [ none ↦ u.email | some name ↦ text name ]

  -- The request of a badge of a scan passes the filter; the filter by match is not part of it.
  abbrev pub scan_request_filter : DashboardFilter → Option Uuid → Bool
  scan_request_filter filter none = false
  scan_request_filter filter (some id) =
      elim (db.find_unique (accreditation_key id) s.accreditations) [
        | none ↦ false
        | some a ↦ badge_filter db s (record filter { match_id = none }) a
      ]

  -- `where` of `loadScans`
  abbrev pub scan_filter : DashboardFilter → ScanLog → Bool
  scan_filter filter scan =
      filter_eq filter.match_id scan.match_id
      && (not (has_request_filter filter) || scan_request_filter filter scan.accreditation_id)

-- What `Date` makes of an instant: `toISOString`, the whole days, and the date in French.
pub record DateFormat : Type 0 where
  pub to_iso_string : Instant → Text
  pub to_french_date : Instant → Text

abbrev pub iso_or_empty : DateFormat → Option Instant → Text
iso_or_empty dates none = []
iso_or_empty dates (some t) = dates.to_iso_string t

-- `status` and `result`, as the reports write them.
abbrev pub status_name : RequestStatus → Text
status_name RequestStatus.draft = text "DRAFT"
status_name RequestStatus.submitted = text "SUBMITTED"
status_name RequestStatus.under_review = text "UNDER_REVIEW"
status_name RequestStatus.info_requested = text "INFO_REQUESTED"
status_name RequestStatus.complete = text "COMPLETE"
status_name RequestStatus.pending_validation = text "PENDING_VALIDATION"
status_name RequestStatus.validated = text "VALIDATED"
status_name RequestStatus.rejected = text "REJECTED"
status_name RequestStatus.cancelled = text "CANCELLED"
status_name RequestStatus.badge_generated = text "BADGE_GENERATED"
status_name RequestStatus.access_used = text "ACCESS_USED"

abbrev pub badge_status_name : AccreditationStatus → Text
badge_status_name AccreditationStatus.active = text "ACTIVE"
badge_status_name AccreditationStatus.revoked = text "REVOKED"
badge_status_name AccreditationStatus.expired = text "EXPIRED"

abbrev pub result_name : ScanResult → Text
result_name ScanResult.valid = text "VALID"
result_name ScanResult.invalid = text "INVALID"
result_name ScanResult.expired = text "EXPIRED"
result_name ScanResult.revoked = text "REVOKED"
result_name ScanResult.already_used = text "ALREADY_USED"
result_name ScanResult.out_of_scope = text "OUT_OF_SCOPE"

abbrev pub text_or_empty : Option String → Text
text_or_empty none = []
text_or_empty (some t) = text t
