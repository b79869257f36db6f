-- ===== src/Requests/Submit.antt =====
-- src/modules/requests/application/commands/submit-request.usecase.ts.
use fsf_acreditation_backend.Base.{
  Bool, Option, none, some, [], ◌∷◌, not, ◌&&◌, ◌==◌, nat_eq, includes, or_else,
}
use fsf_acreditation_backend.Kernel.Errors.{ErrorCode, ErrorKind, throws}
use fsf_acreditation_backend.Store.{
  Prisma, Action, pure, gets, or_throw, throw_if, modify, publish, ◌>>=◌, ◌>>◌, Uuid, Instant,
  AccreditationRequest, RequestStatus, request_status_eq, request_submitted, request_key,
}
use fsf_acreditation_backend.Competitions.Matches.{get_match, assert_accepting_requests}
use fsf_acreditation_backend.Requests.Status.{assert_transition_allowed}

pub record SubmitRequestInput : Type 0 where
  pub request_id : Uuid
  pub requester_id : Uuid
  pub actor_user_id : Uuid

-- Another request of the requester for the match, neither rejected nor cancelled.
abbrev pub is_duplicate_of : AccreditationRequest → AccreditationRequest → Bool
is_duplicate_of request r =
    r.requester_id == request.requester_id
    && (r.match_id == request.match_id
        && (not (r.id == request.id)
            && not (includes (RequestStatus.rejected ∷ RequestStatus.cancelled ∷ []) r.status)))

abbrev pub id_of : Option AccreditationRequest → Option Uuid
id_of none = none
id_of (some r) = some r.id

abbrev pub submitted_at_of :
    Instant → Option AccreditationRequest → AccreditationRequest → AccreditationRequest
submitted_at_of now duplicate r = record r {
  status = RequestStatus.submitted;
  submitted_at = some now;
  duplicate_of_id = or_else (id_of duplicate) r.duplicate_of_id;
}

module _ (db : Prisma) where
  -- `SubmitRequestUseCase.execute`
  unfoldable pub submit_request : Instant → SubmitRequestInput → Action AccreditationRequest
  submit_request now input = do
    request ←
        or_throw (← gets (λ s. db.find_unique (request_key input.request_id) s.requests))
          (throws ErrorCode.request_not_found ErrorKind.not_found)
    throw_if (not (request.requester_id == input.requester_id))
        (throws ErrorCode.request_not_found ErrorKind.not_found)
    assert_transition_allowed request.status RequestStatus.submitted
    match ← get_match db request.match_id
    assert_accepting_requests now match
    duplicate ← gets (λ s. db.find_first (is_duplicate_of request) s.requests)
    modify (λ s. record s {
      requests = db.update_rows (request_key request.id) (submitted_at_of now duplicate) s.requests;
      decisions =
          db.create
            (record {
              request_id = request.id;
              actor_id = input.actor_user_id;
              from_status = request.status;
              to_status = RequestStatus.submitted;
              reason = none;
            })
            s.decisions;
    })
    publish (request_submitted request.id request.requester_id)
    pure (submitted_at_of now duplicate request)
