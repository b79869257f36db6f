-- ===== src/Requests/Status.antt =====
-- The status machine: src/modules/requests/domain/request-status.machine.ts.
use fsf_acreditation_backend.Base.{List, [], ◌∷◌, not, includes}
use fsf_acreditation_backend.Kernel.Errors.{ErrorCode, ErrorKind, throws}
use fsf_acreditation_backend.Store.{Action, throw_if, RequestStatus, request_status_eq}

-- `REQUEST_TRANSITIONS`
unfoldable pub request_transitions : RequestStatus → List RequestStatus
request_transitions RequestStatus.draft = RequestStatus.submitted ∷ RequestStatus.cancelled ∷ []
request_transitions RequestStatus.submitted =
    RequestStatus.under_review ∷ RequestStatus.cancelled ∷ []
request_transitions RequestStatus.under_review =
    RequestStatus.info_requested ∷ RequestStatus.complete ∷ RequestStatus.rejected
    ∷ RequestStatus.cancelled ∷ []
request_transitions RequestStatus.info_requested =
    RequestStatus.under_review ∷ RequestStatus.cancelled ∷ []
request_transitions RequestStatus.complete =
    RequestStatus.pending_validation ∷ RequestStatus.validated ∷ RequestStatus.rejected
    ∷ RequestStatus.cancelled ∷ []
request_transitions RequestStatus.pending_validation =
    RequestStatus.validated ∷ RequestStatus.rejected ∷ RequestStatus.cancelled ∷ []
request_transitions RequestStatus.validated =
    RequestStatus.badge_generated ∷ RequestStatus.cancelled ∷ []
request_transitions RequestStatus.badge_generated =
    RequestStatus.access_used ∷ RequestStatus.cancelled ∷ []
request_transitions RequestStatus.access_used = []
request_transitions RequestStatus.rejected = []
request_transitions RequestStatus.cancelled = []

unfoldable pub assert_transition_allowed : RequestStatus → RequestStatus → Action (Unit {0})
assert_transition_allowed from to =
    throw_if (not (includes (request_transitions from) to))
      (throws ErrorCode.request_invalid_transition ErrorKind.invalid_transition)
