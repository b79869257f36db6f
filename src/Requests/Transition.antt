-- ===== src/Requests/Transition.antt =====
-- src/modules/requests/application/commands/transition-request-status.usecase.ts.
use fsf_acreditation_backend.Base.{Option, nat_eq, String}
use fsf_acreditation_backend.Kernel.Errors.{ErrorCode, ErrorKind, throws}
use fsf_acreditation_backend.Store.{
  Prisma, Action, pure, gets, or_throw, modify, ◌>>=◌, ◌>>◌, Uuid, AccreditationRequest,
  RequestStatus, request_key,
}
use fsf_acreditation_backend.Requests.Status.{assert_transition_allowed}

pub record TransitionInput : Type 0 where
  pub request_id : Uuid
  pub to_status : RequestStatus
  pub actor_id : Uuid
  pub reason : Option String

abbrev pub with_status : RequestStatus → AccreditationRequest → AccreditationRequest
with_status status r = record r { status = status }

module _ (db : Prisma) where
  -- `TransitionRequestStatusUseCase.execute`
  unfoldable pub transition_request : TransitionInput → Action AccreditationRequest
  transition_request input = do
    request ←
        or_throw (← gets (λ s. db.find_unique (request_key input.request_id) s.requests))
          (throws ErrorCode.request_not_found ErrorKind.not_found)
    assert_transition_allowed request.status input.to_status
    modify (λ s. record s {
      requests =
          db.update_rows (request_key input.request_id) (with_status input.to_status) s.requests;
      decisions =
          db.create
            (record {
              request_id = input.request_id;
              actor_id = input.actor_id;
              from_status = request.status;
              to_status = input.to_status;
              reason = input.reason;
            })
            s.decisions;
    })
    pure (with_status input.to_status request)
