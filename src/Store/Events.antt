-- ===== src/Store/Events.antt =====
-- The domain events: src/modules/*/events/*.ts.
use fsf_acreditation_backend.Base.{Option, List, String}
use fsf_acreditation_backend.Store.Enums.{
  RequestStatus, UserKind, StaffRole, UserStatus, DocumentStatus, Tag,
}
use fsf_acreditation_backend.Store.Rows.{Uuid, Text}

-- The fields that can have changed in `MatchUpdatedEvent`.
pub data MatchField : Type 0 where
  kickoff_at stadium city status requests_close_at : MatchField

pub data Event : Type 0 where
  request_submitted : (request_id requester_id : Uuid) → Event
  request_complement_requested : (request_id requester_id : Uuid) (missing_item : String) → Event
  request_decided :
      (request_id requester_id : Uuid) (decision : RequestStatus) (reason : Option String)
      (zone_ids : List Uuid)
      → Event
  request_cancelled : (request_id : Uuid) (previous_status : RequestStatus) → Event
  accreditation_generated : (accreditation_id request_id requester_id : Uuid) → Event
  accreditation_revoked : (accreditation_id request_id : Uuid) (reason : String) → Event
  match_updated : (match_id : Uuid) (changed_fields : List MatchField) → Event
  match_requests_closed : (match_id : Uuid) → Event
  user_account_created :
      (user_id : Uuid) (email : Text) (kind : UserKind) (role : Option StaffRole)
      (actor_id : Option Uuid)
      → Event
  user_role_updated :
      (user_id : Uuid) (from_role : Option StaffRole) (to_role : StaffRole) (actor_id : Uuid)
      → Event
  user_status_updated :
      (user_id : Uuid) (from_status to_status : UserStatus) (actor_id : Uuid) → Event
  user_password_reset : (user_id actor_id : Uuid) → Event
  user_deleted : (user_id : Uuid) (email : Text) (actor_id : Uuid) → Event
  user_login_succeeded :
      (user_id : Uuid) (email : Text) (actor_id : Uuid) (ip_address user_agent : Option String)
      → Event
  user_login_failed :
      (email : Text) (reason : String) (ip_address user_agent : Option String)
      (user_id : Option Uuid)
      → Event
  document_uploaded : (document_id : Uuid) (subject_type : Tag) (subject_id : Uuid) → Event
  document_reviewed :
      (document_id : Uuid) (subject_type : Tag) (subject_id : Uuid) (status : DocumentStatus)
      (reason : Option String)
      → Event
