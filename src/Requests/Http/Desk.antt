-- ===== src/Requests/Http/Desk.antt =====
-- admin-requests.controller.ts: the calls of the staff, each behind the guard of permissions.
use fsf_acreditation_backend.Base.{Bool, Option, none, some, List, ◌==◌, option_eq, String}
use fsf_acreditation_backend.Kernel.Pagination.{PageResult}
use fsf_acreditation_backend.Kernel.Permissions.{
  requests_read_any, requests_complement_request, requests_validate,
}
use fsf_acreditation_backend.Kernel.Listing.{Listing}
use fsf_acreditation_backend.Store.{
  Prisma, Action, Uuid, Instant, Env, AccreditationRequest, RequestComplement, RequestStatus,
  StaffRole, staff_role_eq,
}
use fsf_acreditation_backend.Accreditations.Service.{Crypto, Assignment}
use fsf_acreditation_backend.Iam.Auth.{AuthenticatedUser}
use fsf_acreditation_backend.Iam.Guard.{require_permission}
use fsf_acreditation_backend.Requests.Transition.{transition_request}
use fsf_acreditation_backend.Requests.Complement.{request_complement}
use fsf_acreditation_backend.Requests.Cancel.{cancel_request}
use fsf_acreditation_backend.Requests.Decide.{Verdict, decide_request}
use fsf_acreditation_backend.Requests.Queries.{
  RequestDetails, ListRequests, get_request, list_requests,
}

-- `RequestComplementDto`
pub record AskComplement : Type 0 where
  pub missing_item : String
  pub comment : Option String
  pub due_date : Option Instant

-- `DecideRequestDto`
pub record DecideRequest : Type 0 where
  pub status : Verdict
  pub reason : Option String
  pub zone_ids : Option (List Uuid)
  pub override_quota : Bool
  pub assignment : Assignment

module _ (db : Prisma) where
  -- `list`
  unfoldable pub list :
      Listing AccreditationRequest
      → ListRequests
      → AuthenticatedUser
      → Action (PageResult AccreditationRequest)
  list listing query user =
      require_permission requests_read_any user (list_requests db listing query none)

  -- `get`
  unfoldable pub get : Uuid → AuthenticatedUser → Action RequestDetails
  get id user = require_permission requests_read_any user (get_request db id)

  -- `complement`
  unfoldable pub complement :
      Env → Uuid → AskComplement → AuthenticatedUser → Action RequestComplement
  complement env id dto user = require_permission requests_complement_request user (
      request_complement db env (record {
        request_id = id;
        requested_by_id = user.id;
        missing_item = dto.missing_item;
        comment = dto.comment;
        due_date = dto.due_date;
      }))

  -- `transition`
  unfoldable pub transition : Uuid → RequestStatus → AuthenticatedUser → Action AccreditationRequest
  transition id to_status user = require_permission requests_validate user (
      transition_request db
        (record { request_id = id; to_status = to_status; actor_id = user.id; reason = none }))

  -- `decide`
  unfoldable pub decide :
      Crypto → Env → Uuid → DecideRequest → AuthenticatedUser → Action AccreditationRequest
  decide crypto env id dto user = require_permission requests_validate user (
      decide_request db crypto env (record {
        request_id = id;
        actor_id = user.id;
        actor_is_admin = user.role == some StaffRole.admin;
        status = dto.status;
        reason = dto.reason;
        zone_ids = dto.zone_ids;
        override_quota = dto.override_quota;
        assignment = dto.assignment;
      }))

  -- `cancel`
  unfoldable pub cancel : Uuid → AuthenticatedUser → Action AccreditationRequest
  cancel id user =
      require_permission requests_validate user
        (cancel_request db (record { request_id = id; actor_id = user.id; requester_id = none }))
