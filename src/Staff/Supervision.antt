-- ===== src/Staff/Supervision.antt =====
-- What a supervisor can change.
use fsf_acreditation_backend.Base.{◌≡◌, refl, ap, false, Option, none, some, [], ◌∷◌}
use fsf_acreditation_backend.Kernel.Errors.{Failure}
use fsf_acreditation_backend.Kernel.Listing.{list_page}
use fsf_acreditation_backend.Kernel.Permissions.{
  Permission, permission_eq, users_manage, competitions_manage, media_manage, media_read,
  requests_read_any, requests_validate, requests_attribute, requests_complement_request,
  accreditations_generate, accreditations_revoke, scan_perform, scan_read, dashboard_read,
  audit_read, export_data, permissions_for_role, role_permissions, can_activate, has_permission,
}
use fsf_acreditation_backend.Store.{
  Reads, read_rule, Uuid, Text, Instant, Prisma, Action, Database, StaffRole, or_throw,
  or_throw_rule, throw_if_rule, throw_if-true,
}
use fsf_acreditation_backend.Iam.Auth.{AuthenticatedUser}
use fsf_acreditation_backend.Iam.Guard.{require_permission}
use fsf_acreditation_backend.Iam.Listings.{list_login_attempts}
use fsf_acreditation_backend.Iam.Calls.{Call, serve_call}
use fsf_acreditation_backend.Iam.Calls
use fsf_acreditation_backend.Iam.Desk as Accounts
use fsf_acreditation_backend.Media.Service.{list_media, get_media}
use fsf_acreditation_backend.Media.Profiles.{list_requester_profiles, get_requester_profile}
use fsf_acreditation_backend.Documents.Service.{list_for_subject, get_document, get_download_url}
use fsf_acreditation_backend.Accreditations.Service.{get_for_request}
use fsf_acreditation_backend.AccessControl.Devices.{list_scans, export_for_offline_use}
use fsf_acreditation_backend.Audit.{list_audit}
use fsf_acreditation_backend.Reporting.Search.{search}
use fsf_acreditation_backend.Reporting.Dashboard.{
  DashboardFilter, get_global_stats, get_match_day_stats,
}
use fsf_acreditation_backend.Requests.Queries.{list_requests}
use fsf_acreditation_backend.Requests.Http.Isolation.{get_request-Reads}
use fsf_acreditation_backend.Requests.Http.Desk
use fsf_acreditation_backend.Staff.Settings
use fsf_acreditation_backend.Staff.Exports
use fsf_acreditation_backend.Staff.Exports.{assert_known_report}
use fsf_acreditation_backend.Reporting.Labels.{ReportKey, DateFormat}
use fsf_acreditation_backend.Reporting.Scope.{describe_scope}
use fsf_acreditation_backend.Reporting.Reports.{
  build_report, load_rows, load_requests, load_accredited, load_rejected, load_pending, load_scans,
}
use fsf_acreditation_backend.Staff.Field
use fsf_acreditation_backend.Staff.Routes.{StaffRoute, serve_staff}

module _ (db : Prisma) where
  -- The guard in front of a handler that the caller has no right to.
  refused :
      {A : Type 0} (p : Permission) (user : AuthenticatedUser) (m : Action A) (s : Database)
      → user.permissions ≡ permissions_for_role (some StaffRole.superviseur)
      → can_activate false (p ∷ []) (some (permissions_for_role (some StaffRole.superviseur)))
        ≡ false
      → (require_permission p user m s).1 ≡ s
  refused p user m s role barred =
      ap (λ o. o.1) (throw_if-true Failure.forbidden_exception m s (rw (role, barred) refl))

  -- The guard in front of a handler that writes nothing.
  allowed :
      {A : Type 0} (p : Permission) (user : AuthenticatedUser) (m : Action A) (s : Database)
      → (m s).1 ≡ s
      → (require_permission p user m s).1 ≡ s
  allowed p user m s reads = throw_if_rule (λ o. o.1 ≡ s) _ _ m s (λ barred. refl) (λ passed. reads)

  plain : {A : Type 0} (o : Option A) (e : Failure) (s : Database) → (or_throw o e s).1 ≡ s
  unfolding or_throw
  plain none e s = refl
  plain (some a) e s = refl

  account_reads :
      (call : Call) (user : AuthenticatedUser) (s : Database)
      → user.permissions ≡ permissions_for_role (some StaffRole.superviseur)
      → serve_call db user call s ≡ s
  unfolding serve_call Accounts.create Accounts.list Accounts.list_attempts Accounts.get
      Accounts.get_login_history Accounts.update Accounts.reset Accounts.set_status Accounts.remove
      list_login_attempts list_page can_activate has_permission permissions_for_role
      role_permissions permission_eq
  account_reads (Calls.create hasher env dto) user s role = refused users_manage user _ s role refl
  account_reads (Calls.list listing query) user s role = refused users_manage user _ s role refl
  account_reads (Calls.list_attempts listing query) user s role = allowed audit_read user _ s refl
  account_reads (Calls.get id) user s role = refused users_manage user _ s role refl
  account_reads (Calls.get_login_history listing id query) user s role =
      refused users_manage user _ s role refl
  account_reads (Calls.update id dto) user s role = refused users_manage user _ s role refl
  account_reads (Calls.reset hasher now id password) user s role =
      refused users_manage user _ s role refl
  account_reads (Calls.set_status id status) user s role = refused users_manage user _ s role refl
  account_reads (Calls.remove has_history id) user s role = refused users_manage user _ s role refl

  -- A report is read from the tables.
  build_report-Reads :
      (dates : DateFormat) (id_text : Uuid → Text) (now : Instant) (key : ReportKey)
      (filter : DashboardFilter)
      → Reads (build_report db dates id_text now key filter)
  unfolding build_report describe_scope load_rows load_requests load_accredited load_rejected
      load_pending load_scans
  build_report-Reads dates id_text now ReportKey.requests filter s = refl
  build_report-Reads dates id_text now ReportKey.accredited filter s = refl
  build_report-Reads dates id_text now ReportKey.rejected filter s = refl
  build_report-Reads dates id_text now ReportKey.pending filter s = refl
  build_report-Reads dates id_text now ReportKey.entries filter s = refl
  build_report-Reads dates id_text now ReportKey.anomalies filter s = refl

  badge-Reads : (id : Uuid) → Reads (get_for_request db id none)
  unfolding get_for_request
  badge-Reads id s =
      or_throw_rule (λ o. o.1 ≡ s) _ _ _ s (λ e. refl)
        (λ a found.
          or_throw_rule (λ o. o.1 ≡ s) _ _ _ s (λ e. refl)
            (λ r there. throw_if_rule (λ o. o.1 ≡ s) _ _ _ s (λ e. refl) (λ e. refl)))

  -- A supervisor changes nothing in the database, whatever route that demands a permission of the
  -- staff it calls, and whether the call returns or throws.
  pub serve_staff_reads :
      (route : StaffRoute) (user : AuthenticatedUser) (s : Database)
      → user.permissions ≡ permissions_for_role (some StaffRole.superviseur)
      → serve_staff db user route s ≡ s
  unfolding Exports.read_report Exports.read_match_day_report Exports.read_qr_url
      Exports.read_public_key assert_known_report serve_staff Field.read_search Field.read_scans
      Settings.read_quotas search list_scans list_page list_media get_media list_requester_profiles
      get_requester_profile list_for_subject get_document get_download_url get_for_request
      export_for_offline_use list_audit get_global_stats get_match_day_stats list_requests
      can_activate has_permission permissions_for_role role_permissions permission_eq Desk.list
      Desk.get Desk.complement Desk.transition Desk.decide Desk.cancel Settings.post_competition
      Settings.patch_competition Settings.post_match Settings.patch_match Settings.put_quota
      Settings.post_category Settings.patch_category Settings.post_zone Settings.patch_zone
      Settings.read_templates Settings.put_template Settings.post_media Settings.patch_media
      Settings.patch_media_status Settings.read_media Settings.read_medium Field.read_requesters
      Field.read_requester Field.patch_requester_status Field.patch_editor_in_chief
      Field.post_document Field.read_documents Field.read_download_url Field.patch_review
      Field.read_badge Field.post_revoke Field.patch_assignments Field.post_scan
      Field.read_offline_export Field.post_offline_scans Field.read_audit Field.read_figures
      Field.read_match_day
  serve_staff_reads (StaffRoute.post_competition env dto) user s role =
      refused competitions_manage user _ s role refl
  serve_staff_reads (StaffRoute.patch_competition id dto) user s role =
      refused competitions_manage user _ s role refl
  serve_staff_reads (StaffRoute.post_match env dto) user s role =
      refused competitions_manage user _ s role refl
  serve_staff_reads (StaffRoute.patch_match id dto) user s role =
      refused competitions_manage user _ s role refl
  serve_staff_reads (StaffRoute.put_quota env match_id dto) user s role =
      refused requests_attribute user _ s role refl
  serve_staff_reads (StaffRoute.post_category env dto) user s role =
      refused competitions_manage user _ s role refl
  serve_staff_reads (StaffRoute.patch_category id dto) user s role =
      refused competitions_manage user _ s role refl
  serve_staff_reads (StaffRoute.post_zone env dto) user s role =
      refused competitions_manage user _ s role refl
  serve_staff_reads (StaffRoute.patch_zone id dto) user s role =
      refused competitions_manage user _ s role refl
  serve_staff_reads StaffRoute.read_templates user s role = refused users_manage user _ s role refl
  serve_staff_reads (StaffRoute.put_template event dto) user s role =
      refused users_manage user _ s role refl
  serve_staff_reads (StaffRoute.post_media env dto) user s role =
      refused media_manage user _ s role refl
  serve_staff_reads (StaffRoute.patch_media id dto) user s role =
      refused media_manage user _ s role refl
  serve_staff_reads (StaffRoute.patch_media_status id status) user s role =
      refused media_manage user _ s role refl
  serve_staff_reads (StaffRoute.read_media listing query) user s role =
      allowed media_read user _ s refl
  serve_staff_reads (StaffRoute.read_medium id) user s role =
      allowed media_read user _ s (plain _ _ s)
  serve_staff_reads (StaffRoute.read_requesters listing query) user s role =
      allowed media_read user _ s refl
  serve_staff_reads (StaffRoute.read_requester id) user s role =
      allowed media_read user _ s (plain _ _ s)
  serve_staff_reads (StaffRoute.patch_requester_status id status) user s role =
      refused media_manage user _ s role refl
  serve_staff_reads (StaffRoute.patch_editor_in_chief id flag) user s role =
      refused media_manage user _ s role refl
  serve_staff_reads (StaffRoute.post_document config env subject_type subject_id document_type file)
        user s role =
      refused media_manage user _ s role refl
  serve_staff_reads (StaffRoute.read_documents subject_type subject_id) user s role =
      allowed media_read user _ s refl
  serve_staff_reads (StaffRoute.read_download_url sign id) user s role =
      allowed media_read user _ s
        (or_throw_rule (λ o. o.1 ≡ s) _ _ _ s (λ e. refl) (λ a found. refl))
  serve_staff_reads (StaffRoute.patch_review now id status reason) user s role =
      refused requests_validate user _ s role refl
  serve_staff_reads (StaffRoute.read_badge id) user s role = allowed requests_read_any user _ s (
      or_throw_rule (λ o. o.1 ≡ s) _ _ _ s (λ e. refl)
        (λ a found.
          or_throw_rule (λ o. o.1 ≡ s) _ _ _ s (λ e. refl)
            (λ r there. throw_if_rule (λ o. o.1 ≡ s) _ _ _ s (λ e. refl) (λ e. refl))))
  serve_staff_reads (StaffRoute.post_revoke now id reason) user s role =
      refused accreditations_revoke user _ s role refl
  serve_staff_reads (StaffRoute.patch_assignments id dto) user s role =
      refused accreditations_generate user _ s role refl
  serve_staff_reads (StaffRoute.post_scan crypto now dto) user s role =
      refused scan_perform user _ s role refl
  serve_staff_reads (StaffRoute.read_offline_export id) user s role =
      allowed scan_read user _ s refl
  serve_staff_reads (StaffRoute.post_offline_scans now scans) user s role =
      refused scan_perform user _ s role refl
  serve_staff_reads (StaffRoute.read_audit listing query) user s role =
      allowed audit_read user _ s refl
  serve_staff_reads (StaffRoute.read_figures filter) user s role =
      allowed dashboard_read user _ s refl
  serve_staff_reads (StaffRoute.read_match_day id) user s role =
      allowed dashboard_read user _ s refl
  serve_staff_reads (StaffRoute.admin_list listing query) user s role =
      allowed requests_read_any user _ s refl
  serve_staff_reads (StaffRoute.admin_get id) user s role =
      allowed requests_read_any user _ s (get_request-Reads db id s)
  serve_staff_reads (StaffRoute.admin_complement env id dto) user s role =
      refused requests_complement_request user _ s role refl
  serve_staff_reads (StaffRoute.admin_transition id to_status) user s role =
      refused requests_validate user _ s role refl
  serve_staff_reads (StaffRoute.admin_decide crypto env id dto) user s role =
      refused requests_validate user _ s role refl
  serve_staff_reads (StaffRoute.admin_cancel id) user s role =
      refused requests_validate user _ s role refl
  serve_staff_reads (StaffRoute.accounts call) user s role = account_reads call user s role
  serve_staff_reads (StaffRoute.read_search engine crypto term) user s role =
      allowed dashboard_read user _ s refl
  serve_staff_reads (StaffRoute.read_scans listing match_id) user s role =
      allowed scan_read user _ s refl
  serve_staff_reads (StaffRoute.read_quotas match_id) user s role =
      refused requests_attribute user _ s role refl
  serve_staff_reads (StaffRoute.read_report dates id_text now report format filter) user s role =
      allowed export_data user _ s (
        or_throw_rule (λ o. o.1 ≡ s) _ _ _ s (λ e. refl)
          λ key known.
            read_rule (λ o. o.1 ≡ s) (build_report db dates id_text now key filter) _ s
              (build_report-Reads dates id_text now key filter) (λ e h. refl)
              λ d h. throw_if_rule (λ o. o.1 ≡ s) _ _ _ s (λ e. refl) (λ e. refl))
  serve_staff_reads (StaffRoute.read_match_day_report format match_id) user s role =
      allowed export_data user _ s (
        throw_if_rule (λ o. o.1 ≡ s) _ _ _ s (λ e. refl)
          λ pdf. or_throw_rule (λ o. o.1 ≡ s) _ _ _ s (λ e. refl) (λ m found. refl))
  serve_staff_reads (StaffRoute.read_qr_url sign id) user s role =
      allowed requests_read_any user _ s (
        read_rule (λ o. o.1 ≡ s) (get_for_request db id none) _ s (badge-Reads id) (λ e h. refl)
          (λ a h. refl))
  serve_staff_reads (StaffRoute.read_public_key key) user s role = allowed scan_read user _ s refl
