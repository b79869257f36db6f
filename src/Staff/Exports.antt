-- ===== src/Staff/Exports.antt =====
-- exports.controller.ts, and the two routes that hand out a link and a key: each call stands behind
-- the guard of permissions. The drawing of the files is left out.
use fsf_acreditation_backend.Base.{
  none, List, [], ◌∷◌, find, includes, not, ◌==◌, nat_eq, list_eq, String, text,
}
use fsf_acreditation_backend.Kernel.Errors.{ErrorCode, ErrorKind, Failure, throws}
use fsf_acreditation_backend.Kernel.Permissions.{export_data, requests_read_any, scan_read}
use fsf_acreditation_backend.Store.{
  Prisma, Action, pure, gets, or_throw, throw_if, ◌>>=◌, ◌>>◌, Uuid, Instant, Text, Match,
  match_key,
}
use fsf_acreditation_backend.Accreditations.Service.{get_for_request}
use fsf_acreditation_backend.Iam.Auth.{AuthenticatedUser}
use fsf_acreditation_backend.Iam.Guard.{require_permission}
use fsf_acreditation_backend.Reporting.Dashboard.{
  DashboardFilter, MatchDayStats, get_match_day_stats,
}
use fsf_acreditation_backend.Reporting.Labels.{ReportKey, DateFormat}
use fsf_acreditation_backend.Reporting.Reports.{TabularReport, build_report}

-- A key of a report, as the route names it.
abbrev pub report_name : ReportKey → Text
report_name ReportKey.requests = text "requests"
report_name ReportKey.accredited = text "accredited"
report_name ReportKey.rejected = text "rejected"
report_name ReportKey.pending = text "pending"
report_name ReportKey.entries = text "entries"
report_name ReportKey.anomalies = text "anomalies"

-- `REPORT_KEYS`
abbrev pub report_keys : List ReportKey
report_keys =
    ReportKey.requests ∷ ReportKey.accredited ∷ ReportKey.rejected ∷ ReportKey.pending
    ∷ ReportKey.entries ∷ ReportKey.anomalies ∷ []

-- `assertKnownReport`
unfoldable pub assert_known_report : Text → Action ReportKey
assert_known_report report =
    or_throw (find (λ k. report_name k == report) report_keys)
      (throws ErrorCode.report_unknown ErrorKind.validation)

module _ (db : Prisma) where
  -- `ExportsController.report`; the answer is what the file is drawn from.
  unfoldable pub read_report :
      DateFormat
      → (Uuid → Text)
      → Instant
      → (report format : Text) → DashboardFilter
      → AuthenticatedUser
      → Action TabularReport
  unfolding assert_known_report
  read_report dates id_text now report format filter user = require_permission export_data user (do
    key ← assert_known_report report
    tabular ← build_report db dates id_text now key filter
    throw_if (not (includes (text "csv" ∷ text "xlsx" ∷ text "pdf" ∷ []) format))
        (throws ErrorCode.report_unknown ErrorKind.validation)
    pure tabular)

  -- `ExportsController.matchDay`; the answer is what `matchDayPdf` draws, less the figures by zone.
  unfoldable pub read_match_day_report :
      (format : Text) → Uuid → AuthenticatedUser → Action (Match × MatchDayStats)
  read_match_day_report format match_id user = require_permission export_data user (do
    throw_if (not (format == text "pdf")) (throws ErrorCode.report_unknown ErrorKind.validation)
    match ←
        or_throw (← gets (λ s. db.find_unique (match_key match_id) s.matches))
          Failure.unknown_record
    stats ← get_match_day_stats db match_id
    pure (match, stats))

  -- `AdminAccreditationsController.getQrUrlByRequest`; the storage signs the link.
  unfoldable pub read_qr_url : (Uuid → String) → Uuid → AuthenticatedUser → Action String
  read_qr_url sign request_id user =
      require_permission requests_read_any user
        (do a ← get_for_request db request_id none; pure (sign a.id))

  -- `AccessControlController.publicKey`; the key is that of the signer.
  unfoldable pub read_public_key : String → AuthenticatedUser → Action String
  read_public_key key user = require_permission scan_read user (pure key)
