-- ===== src/Requests/Cancel.antt =====
-- src/modules/requests/application/commands/cancel-request.usecase.ts.
use fsf_acreditation_backend.Base.{Option, none, List, [], ◌∷◌, nat_eq, includes}
use fsf_acreditation_backend.Kernel.Errors.{ErrorCode, ErrorKind, throws}
use fsf_acreditation_backend.Store.{
  Prisma, Action, pure, gets, or_throw, throw_if, when, modify, publish, ◌>>=◌, ◌>>◌, Uuid,
  AccreditationRequest, RequestStatus, request_status_eq, request_cancelled, request_key,
}
use fsf_acreditation_backend.Accreditations.Service.{is_foreign}
use fsf_acreditation_backend.Quotas.Service.{release_slot}
use fsf_acreditation_backend.Requests.Status.{assert_transition_allowed}
use fsf_acreditation_backend.Requests.Transition.{with_status}

pub record CancelRequestInput : Type 0 where
  pub request_id : Uuid
  pub actor_id : Uuid
  pub requester_id : Option Uuid

abbrev pub statuses_with_reserved_quota : List RequestStatus
statuses_with_reserved_quota =
    RequestStatus.validated ∷ RequestStatus.badge_generated ∷ RequestStatus.access_used ∷ []

module _ (db : Prisma) where
  -- `CancelRequestUseCase.execute`
  unfoldable pub cancel_request : CancelRequestInput → Action AccreditationRequest
  cancel_request input = do
    request ←
        or_throw (← gets (λ s. db.find_unique (request_key input.request_id) s.requests))
          (throws ErrorCode.request_not_found ErrorKind.not_found)
    throw_if (is_foreign input.requester_id request.requester_id)
        (throws ErrorCode.request_not_found ErrorKind.not_found)
    assert_transition_allowed request.status RequestStatus.cancelled
    modify (λ s. record s {
      requests =
          db.update_rows (request_key request.id) (with_status RequestStatus.cancelled) s.requests;
      decisions =
          db.create
            (record {
              request_id = request.id;
              actor_id = input.actor_id;
              from_status = request.status;
              to_status = RequestStatus.cancelled;
              reason = none;
            })
            s.decisions;
    })
    when (includes statuses_with_reserved_quota request.status)
        (release_slot db request.match_id request.category_requested_id)
    publish (request_cancelled request.id request.status)
    pure (with_status RequestStatus.cancelled request)
