-- ===== src/Requests/Http/Requester.antt =====
-- requests.controller.ts: the calls of a requester.
use fsf_acreditation_backend.Base.{Bool, Option, some, List, not, ◌==◌, nat_eq, String}
use fsf_acreditation_backend.Kernel.Errors.{ErrorCode, ErrorKind, Failure, throws}
use fsf_acreditation_backend.Kernel.Pagination.{PageResult}
use fsf_acreditation_backend.Kernel.Listing.{Listing}
use fsf_acreditation_backend.Store.{
  Prisma, Action, pure, or_throw, throw_if, ◌>>=◌, ◌>>◌, Uuid, Instant, Tag, Env,
  AccreditationRequest, RequestComplement, Document, RoleInEvent,
}
use fsf_acreditation_backend.Iam.Auth.{AuthenticatedUser}
use fsf_acreditation_backend.Documents.Service.{StorageConfig, UploadFile, upload}
use fsf_acreditation_backend.Requests.Draft.{SaveDraftInput, save_draft}
use fsf_acreditation_backend.Requests.Submit.{submit_request}
use fsf_acreditation_backend.Requests.Complement.{resolve_complement}
use fsf_acreditation_backend.Requests.Cancel.{cancel_request}
use fsf_acreditation_backend.Requests.Queries.{
  RequestDetails, ListRequests, request_subject, get_request, list_requests,
}

-- `CreateDraftRequestDto`
pub record CreateDraftRequest : Type 0 where
  pub match_id : Uuid
  pub category_requested_id : Uuid
  pub role_in_event : Option RoleInEvent
  pub needs_desk : Option Bool
  pub needs_power : Option Bool
  pub needs_lan_wifi : Option Bool
  pub car_plate_number : Option String
  pub preferred_zone_ids : Option (List Uuid)

-- `{ requesterId, ...dto }`
abbrev pub draft_input : Uuid → CreateDraftRequest → SaveDraftInput
draft_input requester_id dto = record {
  requester_id = requester_id;
  match_id = dto.match_id;
  category_requested_id = dto.category_requested_id;
  role_in_event = dto.role_in_event;
  needs_desk = dto.needs_desk;
  needs_power = dto.needs_power;
  needs_lan_wifi = dto.needs_lan_wifi;
  car_plate_number = dto.car_plate_number;
  preferred_zone_ids = dto.preferred_zone_ids;
}

-- `requireProfile`
abbrev pub require_profile : AuthenticatedUser → Action Uuid
require_profile user = or_throw user.requester_profile_id Failure.forbidden_exception

module _ (db : Prisma) where
  -- `create`
  unfoldable pub create : Env → CreateDraftRequest → AuthenticatedUser → Action AccreditationRequest
  create env dto user = do
    requester_id ← require_profile user
    save_draft db env (draft_input requester_id dto)

  -- `list`
  unfoldable pub list :
      Listing AccreditationRequest
      → ListRequests
      → AuthenticatedUser
      → Action (PageResult AccreditationRequest)
  list listing query user = do
    requester_id ← require_profile user
    list_requests db listing query (some requester_id)

  -- `get`: the request is read first, then the profile is required and compared.
  unfoldable pub get : Uuid → AuthenticatedUser → Action RequestDetails
  get id user = do
    details ← get_request db id
    requester_id ← require_profile user
    throw_if (not (details.request.requester_id == requester_id)) Failure.forbidden_exception
    pure details

  -- `submit`
  unfoldable pub submit : Instant → Uuid → AuthenticatedUser → Action AccreditationRequest
  submit now id user = do
    requester_id ← require_profile user
    submit_request db now
        (record { request_id = id; requester_id = requester_id; actor_user_id = user.id })

  -- `uploadDocument`; the type of the document is missing if the text names none.
  unfoldable pub upload_document :
      StorageConfig → Env → Uuid → Option Tag → UploadFile → AuthenticatedUser → Action Document
  unfolding get
  upload_document config env id document_type file user = do
    get id user
    kind ← or_throw document_type (throws ErrorCode.document_type_invalid ErrorKind.validation)
    upload db config env.new_id request_subject id kind file user.id

  -- `resolve`
  unfoldable pub resolve :
      Instant → (id complement_id : Uuid) → AuthenticatedUser → Action RequestComplement
  resolve now id complement_id user = do
    requester_id ← require_profile user
    resolve_complement db now
        (record { request_id = id; complement_id = complement_id; requester_id = requester_id })

  -- `cancel`
  unfoldable pub cancel : Uuid → AuthenticatedUser → Action AccreditationRequest
  cancel id user = do
    requester_id ← require_profile user
    cancel_request db
        (record { request_id = id; actor_id = user.id; requester_id = some requester_id })
