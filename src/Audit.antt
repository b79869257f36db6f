-- ===== src/Audit.antt =====
-- The journal of every event: src/modules/audit.
use fsf_acreditation_backend.Base.{Option, none, some, ◌&&◌, nat_eq, string_eq, option_eq, String}
use fsf_acreditation_backend.Kernel.Pagination.{PageRequest, PageResult}
use fsf_acreditation_backend.Kernel.Listing.{Listing, filter_eq, list_page}
use fsf_acreditation_backend.Store.{
  Prisma, Action, modify, Uuid, AuditLog, Event, request_submitted, request_complement_requested,
  request_decided, request_cancelled, accreditation_generated, accreditation_revoked, match_updated,
  match_requests_closed, user_account_created, user_role_updated, user_status_updated,
  user_password_reset, user_deleted, user_login_succeeded, user_login_failed, document_uploaded,
  document_reviewed,
}

-- `RecordAuditInput`, with the columns that the listener fills. The fields of the event, which it
-- stores beside them, are left out.
pub record RecordAudit : Type 0 where
  pub actor_id : Option Uuid
  pub action : String
  pub object_type : String
  pub object_id : Option Uuid

-- `ListAuditDto`
pub record ListAudit : Type 0 where
  pub page : PageRequest
  pub object_type : Option String
  pub object_id : Option Uuid

abbrev entry : Option Uuid → String → String → Option Uuid → RecordAudit
entry actor_id action object_type object_id = record {
  actor_id = actor_id;
  action = action;
  object_type = object_type;
  object_id = object_id;
}

-- What `AuditListener.onAnyDomainEvent` takes from an event: its `eventName`, the part of that
-- before the dot, its `actorId`, and of its other fields the first whose name ends with `Id`.
unfoldable pub audit_entry : Event → RecordAudit
audit_entry (request_submitted request_id requester_id) =
    entry none "request.submitted" "request" (some request_id)
audit_entry (request_complement_requested request_id requester_id missing_item) =
    entry none "request.complement_requested" "request" (some request_id)
audit_entry (request_decided request_id requester_id decision reason zone_ids) =
    entry none "request.decided" "request" (some request_id)
audit_entry (request_cancelled request_id previous_status) =
    entry none "request.cancelled" "request" (some request_id)
audit_entry (accreditation_generated accreditation_id request_id requester_id) =
    entry none "accreditation.generated" "accreditation" (some accreditation_id)
audit_entry (accreditation_revoked accreditation_id request_id reason) =
    entry none "accreditation.revoked" "accreditation" (some accreditation_id)
audit_entry (match_updated match_id changed_fields) =
    entry none "match.updated" "match" (some match_id)
audit_entry (match_requests_closed match_id) =
    entry none "match.requests_closed" "match" (some match_id)
audit_entry (user_account_created user_id email kind role actor_id) =
    entry actor_id "user.account_created" "user" (some user_id)
audit_entry (user_role_updated user_id from_role to_role actor_id) =
    entry (some actor_id) "user.role_updated" "user" (some user_id)
audit_entry (user_status_updated user_id from_status to_status actor_id) =
    entry (some actor_id) "user.status_updated" "user" (some user_id)
audit_entry (user_password_reset user_id actor_id) =
    entry (some actor_id) "user.password_reset" "user" (some user_id)
audit_entry (user_deleted user_id email actor_id) =
    entry (some actor_id) "user.deleted" "user" (some user_id)
audit_entry (user_login_succeeded user_id email actor_id ip_address user_agent) =
    entry (some actor_id) "user.login_succeeded" "user" (some user_id)
audit_entry (user_login_failed email reason ip_address user_agent user_id) =
    entry none "user.login_failed" "user" user_id
audit_entry (document_uploaded document_id subject_type subject_id) =
    entry none "document.uploaded" "document" (some document_id)
audit_entry (document_reviewed document_id subject_type subject_id status reason) =
    entry none "document.reviewed" "document" (some document_id)

abbrev pub audit_row : RecordAudit → AuditLog
audit_row input = record {
  actor_id = input.actor_id;
  action = input.action;
  object_type = input.object_type;
  object_id = input.object_id;
}

module _ (db : Prisma) where
  -- `AuditService.record`
  unfoldable pub record_audit : RecordAudit → Action (Unit {0})
  record_audit input =
      modify (λ s. record s { audit_logs = db.create (audit_row input) s.audit_logs })

  -- `AuditListener.onAnyDomainEvent`
  unfoldable pub on_any_domain_event : Event → Action (Unit {0})
  unfolding record_audit audit_entry
  on_any_domain_event event = record_audit (audit_entry event)

  -- `AuditService.list`
  unfoldable pub list_audit : Listing AuditLog → ListAudit → Action (PageResult AuditLog)
  unfolding list_page
  list_audit listing query =
      list_page db listing (λ s. s.audit_logs)
        (λ a.
          filter_eq query.object_type a.object_type
          && filter_eq (object_filter query.object_id) a.object_id)
        query.page
    where
      object_filter : Option Uuid → Option (Option Uuid)
      object_filter none = none
      object_filter (some id) = some (some id)
