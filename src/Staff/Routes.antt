-- ===== src/Staff/Routes.antt =====
-- The routes that demand a permission of the staff, together.
use fsf_acreditation_backend.Competitions.Service.{CreateCompetition, UpdateCompetition}
use fsf_acreditation_backend.Competitions.Matches.{CreateMatch, UpdateMatch}
use fsf_acreditation_backend.Quotas.Service.{SetQuota}
use fsf_acreditation_backend.Configuration.Service.{
  CreateCategory, CreateZone, UpdateCategory, UpdateZone,
}
use fsf_acreditation_backend.Notifications.Templates.{UpsertTemplate}
use fsf_acreditation_backend.Media.Service.{CreateMedia, ListMedia, UpdateMedia}
use fsf_acreditation_backend.Media.Profiles.{ListRequesterProfiles}
use fsf_acreditation_backend.Kernel.Listing.{Listing}
use fsf_acreditation_backend.Iam.Auth.{AuthenticatedUser}
use fsf_acreditation_backend.Base.{Bool, List, Option, String}
use fsf_acreditation_backend.Reporting.Labels.{DateFormat}
use fsf_acreditation_backend.Staff.Exports
use fsf_acreditation_backend.Store.{
  Text, ScanLog, AccreditationRequest, AuditLog, Database, Env, Instant, Media, MediaStatus,
  NotificationEvent, Prisma, RequestStatus, RequesterProfile, RequesterStatus, Tag, Uuid,
}
use fsf_acreditation_backend.Documents.Service.{Review, StorageConfig, UploadFile}
use fsf_acreditation_backend.Accreditations.Service.{AssignmentInput, Crypto}
use fsf_acreditation_backend.AccessControl.Service.{VerifyScan}
use fsf_acreditation_backend.AccessControl.Devices.{OfflineScan}
use fsf_acreditation_backend.Audit.{ListAudit}
use fsf_acreditation_backend.Reporting.Search.{SearchEngine}
use fsf_acreditation_backend.Reporting.Dashboard.{DashboardFilter}
use fsf_acreditation_backend.Requests.Queries.{ListRequests}
use fsf_acreditation_backend.Requests.Http.Desk.{AskComplement, DecideRequest}
use fsf_acreditation_backend.Iam.Calls.{Call, serve_call}
use fsf_acreditation_backend.Staff.Settings
use fsf_acreditation_backend.Staff.Field
use fsf_acreditation_backend.Requests.Http.Desk

-- The routes that demand a permission of the staff, with what a call of each carries and reads
-- from outside.
pub data StaffRoute : Type 1 where
  post_competition : Env → CreateCompetition → StaffRoute
  patch_competition : Uuid → UpdateCompetition → StaffRoute
  post_match : Env → CreateMatch → StaffRoute
  patch_match : Uuid → UpdateMatch → StaffRoute
  put_quota : Env → Uuid → SetQuota → StaffRoute
  post_category : Env → CreateCategory → StaffRoute
  patch_category : Uuid → UpdateCategory → StaffRoute
  post_zone : Env → CreateZone → StaffRoute
  patch_zone : Uuid → UpdateZone → StaffRoute
  read_templates : StaffRoute
  put_template : NotificationEvent → UpsertTemplate → StaffRoute
  post_media : Env → CreateMedia → StaffRoute
  patch_media : Uuid → UpdateMedia → StaffRoute
  patch_media_status : Uuid → MediaStatus → StaffRoute
  read_media : Listing Media → ListMedia → StaffRoute
  read_medium : Uuid → StaffRoute
  read_requesters : Listing RequesterProfile → ListRequesterProfiles → StaffRoute
  read_requester : Uuid → StaffRoute
  patch_requester_status : Uuid → RequesterStatus → StaffRoute
  patch_editor_in_chief : Uuid → Bool → StaffRoute
  post_document : StorageConfig → Env → Tag → Uuid → Tag → UploadFile → StaffRoute
  read_documents : Tag → Uuid → StaffRoute
  read_download_url : (String → String) → Uuid → StaffRoute
  patch_review : Instant → Uuid → Review → Option String → StaffRoute
  read_badge : Uuid → StaffRoute
  post_revoke : Instant → Uuid → String → StaffRoute
  patch_assignments : Uuid → AssignmentInput → StaffRoute
  post_scan : Crypto → Instant → VerifyScan → StaffRoute
  read_offline_export : Uuid → StaffRoute
  post_offline_scans : Instant → List OfflineScan → StaffRoute
  read_audit : Listing AuditLog → ListAudit → StaffRoute
  read_figures : DashboardFilter → StaffRoute
  read_match_day : Uuid → StaffRoute
  admin_list : Listing AccreditationRequest → ListRequests → StaffRoute
  admin_get : Uuid → StaffRoute
  admin_complement : Env → Uuid → AskComplement → StaffRoute
  admin_transition : Uuid → RequestStatus → StaffRoute
  admin_decide : Crypto → Env → Uuid → DecideRequest → StaffRoute
  admin_cancel : Uuid → StaffRoute
  read_search : SearchEngine → Crypto → String → StaffRoute
  read_scans : Listing ScanLog → Uuid → StaffRoute
  read_quotas : Uuid → StaffRoute
  read_report :
      DateFormat → (Uuid → Text) → Instant → (report format : Text) → DashboardFilter → StaffRoute
  read_match_day_report : (format : Text) → Uuid → StaffRoute
  read_qr_url : (Uuid → String) → Uuid → StaffRoute
  read_public_key : String → StaffRoute
  accounts : Call → StaffRoute

module _ (db : Prisma) (user : AuthenticatedUser) where
  -- The database after a call, whether it returned or threw.
  unfoldable pub serve_staff : StaffRoute → Database → Database
  serve_staff (post_competition env dto) s = (Settings.post_competition db env dto user s).1
  serve_staff (patch_competition id dto) s = (Settings.patch_competition db id dto user s).1
  serve_staff (post_match env dto) s = (Settings.post_match db env dto user s).1
  serve_staff (patch_match id dto) s = (Settings.patch_match db id dto user s).1
  serve_staff (put_quota env match_id dto) s = (Settings.put_quota db env match_id dto user s).1
  serve_staff (post_category env dto) s = (Settings.post_category db env dto user s).1
  serve_staff (patch_category id dto) s = (Settings.patch_category db id dto user s).1
  serve_staff (post_zone env dto) s = (Settings.post_zone db env dto user s).1
  serve_staff (patch_zone id dto) s = (Settings.patch_zone db id dto user s).1
  serve_staff read_templates s = (Settings.read_templates db user s).1
  serve_staff (put_template event dto) s = (Settings.put_template db event dto user s).1
  serve_staff (post_media env dto) s = (Settings.post_media db env dto user s).1
  serve_staff (patch_media id dto) s = (Settings.patch_media db id dto user s).1
  serve_staff (patch_media_status id status) s = (Settings.patch_media_status db id status user s).1
  serve_staff (read_media listing query) s = (Settings.read_media db listing query user s).1
  serve_staff (read_medium id) s = (Settings.read_medium db id user s).1
  serve_staff (read_requesters listing query) s = (Field.read_requesters db listing query user s).1
  serve_staff (read_requester id) s = (Field.read_requester db id user s).1
  serve_staff (patch_requester_status id status) s =
      (Field.patch_requester_status db id status user s).1
  serve_staff (patch_editor_in_chief id flag) s = (Field.patch_editor_in_chief db id flag user s).1
  serve_staff (post_document config env subject_type subject_id document_type file) s =
      (Field.post_document db config env subject_type subject_id document_type file user s).1
  serve_staff (read_documents subject_type subject_id) s =
      (Field.read_documents db subject_type subject_id user s).1
  serve_staff (read_download_url sign id) s = (Field.read_download_url db sign id user s).1
  serve_staff (patch_review now id status reason) s =
      (Field.patch_review db now id status reason user s).1
  serve_staff (read_badge id) s = (Field.read_badge db id user s).1
  serve_staff (post_revoke now id reason) s = (Field.post_revoke db now id reason user s).1
  serve_staff (patch_assignments id dto) s = (Field.patch_assignments db id dto user s).1
  serve_staff (post_scan crypto now dto) s = (Field.post_scan db crypto now dto user s).1
  serve_staff (read_offline_export id) s = (Field.read_offline_export db id user s).1
  serve_staff (post_offline_scans now scans) s = (Field.post_offline_scans db now scans user s).1
  serve_staff (read_audit listing query) s = (Field.read_audit db listing query user s).1
  serve_staff (read_figures filter) s = (Field.read_figures db filter user s).1
  serve_staff (read_match_day id) s = (Field.read_match_day db id user s).1
  serve_staff (admin_list listing query) s = (Desk.list db listing query user s).1
  serve_staff (admin_get id) s = (Desk.get db id user s).1
  serve_staff (admin_complement env id dto) s = (Desk.complement db env id dto user s).1
  serve_staff (admin_transition id to_status) s = (Desk.transition db id to_status user s).1
  serve_staff (admin_decide crypto env id dto) s = (Desk.decide db crypto env id dto user s).1
  serve_staff (admin_cancel id) s = (Desk.cancel db id user s).1
  serve_staff (accounts call) s = serve_call db user call s
  serve_staff (read_search engine crypto term) s =
      (Field.read_search db engine crypto term user s).1
  serve_staff (read_scans listing match_id) s = (Field.read_scans db listing match_id user s).1
  serve_staff (read_quotas match_id) s = (Settings.read_quotas db match_id user s).1
  serve_staff (read_report dates id_text now report format filter) s =
      (Exports.read_report db dates id_text now report format filter user s).1
  serve_staff (read_match_day_report format match_id) s =
      (Exports.read_match_day_report db format match_id user s).1
  serve_staff (read_qr_url sign id) s = (Exports.read_qr_url db sign id user s).1
  serve_staff (read_public_key key) s = (Exports.read_public_key db key user s).1
