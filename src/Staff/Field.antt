-- ===== src/Staff/Field.antt =====
-- The controllers of the staff for profiles, documents, badges, scans, the journal, the figures and
-- the search: each call stands behind the guard of permissions.
use fsf_acreditation_backend.Media.Profiles.{
  ListRequesterProfiles, list_requester_profiles, get_requester_profile,
  update_requester_profile_status, update_editor_in_chief_flag,
}
use fsf_acreditation_backend.Documents.Service.{
  StorageConfig, UploadFile, Review, upload, list_for_subject, get_download_url, review,
}
use fsf_acreditation_backend.Accreditations.Service.{
  Crypto, AssignmentInput, get_for_request, revoke, update_assignments,
}
use fsf_acreditation_backend.AccessControl.Service.{VerifyScan, ScanVerdict, verify_scan}
use fsf_acreditation_backend.AccessControl.Devices.{
  OfflineBadge, OfflineScan, export_for_offline_use, list_scans, sync_offline_scans,
}
use fsf_acreditation_backend.Audit.{ListAudit, list_audit}
use fsf_acreditation_backend.Reporting.Search.{SearchEngine, SearchResult, search}
use fsf_acreditation_backend.Reporting.Dashboard.{
  DashboardFilter, GlobalStats, MatchDayStats, get_global_stats, get_match_day_stats,
}
use fsf_acreditation_backend.Kernel.Listing.{Listing}
use fsf_acreditation_backend.Kernel.Pagination.{PageResult}
use fsf_acreditation_backend.Kernel.Permissions.{
  media_manage, media_read, requests_read_any, requests_validate, accreditations_generate,
  accreditations_revoke, scan_perform, scan_read, dashboard_read, audit_read,
}
use fsf_acreditation_backend.Iam.Auth.{AuthenticatedUser}
use fsf_acreditation_backend.Iam.Guard.{require_permission}
use fsf_acreditation_backend.Base.{ℕ, Bool, Option, none, List, String}
use fsf_acreditation_backend.Store.{
  Prisma, Action, Env, Uuid, Instant, Tag, RequesterProfile, RequesterStatus, Document,
  Accreditation, AuditLog, ScanLog,
}

module _ (db : Prisma) where
  -- `RequestersController.list`
  unfoldable pub read_requesters :
      Listing RequesterProfile
      → ListRequesterProfiles
      → AuthenticatedUser
      → Action (PageResult RequesterProfile)
  read_requesters listing query user =
      require_permission media_read user (list_requester_profiles db listing query)

  -- `RequestersController.get`
  unfoldable pub read_requester : Uuid → AuthenticatedUser → Action (RequesterProfile)
  read_requester id user = require_permission media_read user (get_requester_profile db id)

  -- `RequestersController.updateStatus`
  unfoldable pub patch_requester_status :
      Uuid → RequesterStatus → AuthenticatedUser → Action (RequesterProfile)
  patch_requester_status id status user =
      require_permission media_manage user (update_requester_profile_status db id status)

  -- `RequestersController.updateEditorInChief`
  unfoldable pub patch_editor_in_chief : Uuid → Bool → AuthenticatedUser → Action (RequesterProfile)
  patch_editor_in_chief id flag user =
      require_permission media_manage user (update_editor_in_chief_flag db id flag)

  -- `AdminDocumentsController.upload`
  unfoldable pub post_document :
      StorageConfig → Env → Tag → Uuid → Tag → UploadFile → AuthenticatedUser → Action (Document)
  post_document config env subject_type subject_id document_type file user =
      require_permission media_manage user
        (upload db config env.new_id subject_type subject_id document_type file user.id)

  -- `AdminDocumentsController.listForSubject`
  unfoldable pub read_documents : Tag → Uuid → AuthenticatedUser → Action (List Document)
  read_documents subject_type subject_id user =
      require_permission media_read user (list_for_subject db subject_type subject_id)

  -- `AdminDocumentsController.downloadUrl`
  unfoldable pub read_download_url : (String → String) → Uuid → AuthenticatedUser → Action (String)
  read_download_url sign id user = require_permission media_read user (get_download_url db sign id)

  -- `AdminDocumentsController.review`
  unfoldable pub patch_review :
      Instant → Uuid → Review → Option String → AuthenticatedUser → Action (Document)
  patch_review now id status reason user =
      require_permission requests_validate user (review db now id status user.id reason)

  -- `AdminAccreditationsController.getByRequest`
  unfoldable pub read_badge : Uuid → AuthenticatedUser → Action (Accreditation)
  read_badge id user = require_permission requests_read_any user (get_for_request db id none)

  -- `AdminAccreditationsController.revoke`
  unfoldable pub post_revoke : Instant → Uuid → String → AuthenticatedUser → Action (Accreditation)
  post_revoke now id reason user =
      require_permission accreditations_revoke user (revoke db now id reason user.id)

  -- `AdminAccreditationsController.updateAssignments`
  unfoldable pub patch_assignments :
      Uuid → AssignmentInput → AuthenticatedUser → Action (Accreditation)
  patch_assignments id dto user =
      require_permission accreditations_generate user (update_assignments db id dto)

  -- `AccessControlController.scan`
  unfoldable pub post_scan :
      Crypto → Instant → VerifyScan → AuthenticatedUser → Action (ScanVerdict)
  post_scan crypto now dto user =
      require_permission scan_perform user (verify_scan db crypto now dto user.id)

  -- `AdminAccessControlController.exportOffline`
  unfoldable pub read_offline_export : Uuid → AuthenticatedUser → Action (List OfflineBadge)
  read_offline_export id user = require_permission scan_read user (export_for_offline_use db id)

  -- `AdminAccessControlController.syncOffline`
  unfoldable pub post_offline_scans :
      Instant → List OfflineScan → AuthenticatedUser → Action (ℕ × ℕ)
  post_offline_scans now scans user =
      require_permission scan_perform user (sync_offline_scans db now user.id scans)

  -- `AdminAuditController.list`
  unfoldable pub read_audit :
      Listing AuditLog → ListAudit → AuthenticatedUser → Action (PageResult AuditLog)
  read_audit listing query user = require_permission audit_read user (list_audit db listing query)

  -- `ReportingController.global`
  unfoldable pub read_figures : DashboardFilter → AuthenticatedUser → Action (GlobalStats)
  read_figures filter user = require_permission dashboard_read user (get_global_stats db filter)

  -- `ReportingController.matchDay`
  unfoldable pub read_match_day : Uuid → AuthenticatedUser → Action (MatchDayStats)
  read_match_day id user = require_permission dashboard_read user (get_match_day_stats db id)

  -- `ReportingController.searchAll`
  unfoldable pub read_search :
      SearchEngine → Crypto → String → AuthenticatedUser → Action SearchResult
  read_search engine crypto term user =
      require_permission dashboard_read user (search db engine crypto term)

  -- `AdminAccessControlController.listForMatch`
  unfoldable pub read_scans : Listing ScanLog → Uuid → AuthenticatedUser → Action (List ScanLog)
  read_scans listing match_id user =
      require_permission scan_read user (list_scans db listing match_id)
