-- ===== src/Requests/Queries.antt =====
-- The reads of src/modules/requests/application/queries.
use fsf_acreditation_backend.Base.{
  Bool, false, Option, none, some, List, not, is_some, ◌&&◌, ◌==◌, nat_eq, list_eq, String,
  if◌then◌else◌,
}
use fsf_acreditation_backend.Kernel.Errors.{ErrorCode, ErrorKind, throws}
use fsf_acreditation_backend.Kernel.Pagination.{PageRequest, PageResult}
use fsf_acreditation_backend.Kernel.Listing.{Listing, filter_eq, list_page}
use fsf_acreditation_backend.Store.{
  Prisma, Action, Database, pure, gets, or_throw, throw_if, ◌>>=◌, ◌>>◌, Uuid, Instant, Text, Tag,
  AccreditationRequest, RequestDecision, RequestComplement, Accreditation, Document, RequestStatus,
  request_status_eq, User, request_key, match_key, category_key, profile_key, user_key,
}
use fsf_acreditation_backend.Documents.Service.{list_for_subject}
use fsf_acreditation_backend.Iam.Users.{to_lower_case}

-- `DocumentSubjectType.REQUEST`
abbrev pub request_subject : Tag
request_subject = 2

-- A request with its complements, decisions, badge and documents. The match, the category and the
-- profile that go with it are left out, and so is the order of the lists.
pub record RequestDetails : Type 0 where
  pub request : AccreditationRequest
  pub complements : List RequestComplement
  pub decisions : List RequestDecision
  pub accreditation : Option Accreditation
  pub documents : List Document

-- `ListRequestsDto`
pub record ListRequests : Type 0 where
  pub page : PageRequest
  pub match_id : Option Uuid
  pub category_requested_id : Option Uuid
  pub status : Option RequestStatus

-- `TrackRequestResult`
pub record TrackRequestResult : Type 0 where
  pub unique_reference : Text
  pub status : RequestStatus
  pub home_team : String
  pub away_team : String
  pub kickoff_at : Instant
  pub stadium : String
  pub category : String
  pub submitted_at : Option Instant
  pub decision_at : Option Instant
  pub decision_reason : Option String
  pub has_accreditation : Bool

abbrev pub reference_key : Text → AccreditationRequest → Bool
reference_key reference r = r.unique_reference == reference

abbrev pub badge_of : Uuid → Accreditation → Bool
badge_of request_id a = a.request_id == request_id

-- The account of a requester, through its profile: both rows are required by foreign keys.
abbrev pub account_of_requester : Prisma → Database → Uuid → Option User
account_of_requester db s requester_id =
    elim (db.find_unique (profile_key requester_id) s.profiles) [
      | none ↦ none
      | some p ↦ db.find_unique (user_key p.user_id) s.users
    ]

-- `request.requester.user.email.toLowerCase() !== email.toLowerCase()`
abbrev pub is_email_of : Text → Option User → Bool
is_email_of email none = false
is_email_of email (some u) = to_lower_case u.email == to_lower_case email

module _ (db : Prisma) where
  -- `GetRequestQuery.execute`
  unfoldable pub get_request : Uuid → Action RequestDetails
  unfolding list_for_subject
  get_request request_id = do
    request ←
        or_throw (← gets (λ s. db.find_unique (request_key request_id) s.requests))
          (throws ErrorCode.request_not_found ErrorKind.not_found)
    documents ← list_for_subject db request_subject request_id
    gets (λ s. record {
      request = request;
      complements = db.find_many (λ c. c.request_id == request_id) s.complements;
      decisions = db.find_many (λ d. d.request_id == request_id) s.decisions;
      accreditation = db.find_unique (badge_of request_id) s.accreditations;
      documents = documents;
    })

  -- `ListRequestsQuery.execute`
  unfoldable pub list_requests :
      Listing AccreditationRequest
      → ListRequests
      → Option Uuid
      → Action (PageResult AccreditationRequest)
  unfolding list_page
  list_requests listing query requester_id =
      list_page db listing (λ s. s.requests)
        (λ r.
          filter_eq requester_id r.requester_id
          && (filter_eq query.match_id r.match_id
              && (filter_eq query.category_requested_id r.category_requested_id
                  && filter_eq query.status r.status)))
        query.page

  -- The answer of the public tracking, for the request that was found and its account. The rows
  -- that it refers to are there, by the foreign keys.
  unfoldable pub track_found : Text → AccreditationRequest → Action TrackRequestResult
  track_found email request = do
    account ← gets (λ s. account_of_requester db s request.requester_id)
    throw_if (not (is_email_of email account))
        (throws ErrorCode.request_not_found ErrorKind.not_found)
    match ←
        or_throw (← gets (λ s. db.find_unique (match_key request.match_id) s.matches))
          (throws ErrorCode.match_not_found ErrorKind.not_found)
    category ←
        or_throw
          (← gets (λ s. db.find_unique (category_key request.category_requested_id) s.categories))
          (throws ErrorCode.category_not_found ErrorKind.not_found)
    badge ← gets (λ s. db.find_unique (badge_of request.id) s.accreditations)
    pure (record {
      unique_reference = request.unique_reference;
      status = request.status;
      home_team = match.home_team;
      away_team = match.away_team;
      kickoff_at = match.kickoff_at;
      stadium = match.stadium;
      category = category.label;
      submitted_at = request.submitted_at;
      decision_at = request.decision_at;
      decision_reason =
          if request.status == RequestStatus.rejected then request.decision_reason else none;
      has_accreditation = is_some badge;
    })

  -- `TrackRequestQuery.execute`
  unfoldable pub track_request : Text → Text → Action TrackRequestResult
  unfolding track_found
  track_request reference email = do
    request ←
        or_throw (← gets (λ s. db.find_unique (reference_key reference) s.requests))
          (throws ErrorCode.request_not_found ErrorKind.not_found)
    track_found email request
