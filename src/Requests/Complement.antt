-- ===== src/Requests/Complement.antt =====
-- src/modules/requests/application/commands/request-complement.usecase.ts and
-- resolve-complement.usecase.ts beside it.
use fsf_acreditation_backend.Base.{
  Bool, Option, none, some, not, ◌&&◌, ◌==◌, nat_eq, option_eq, String,
}
use fsf_acreditation_backend.Kernel.Errors.{ErrorCode, ErrorKind, throws}
use fsf_acreditation_backend.Store.{
  Prisma, Action, pure, gets, or_throw, throw_if, when, modify, publish, ◌>>=◌, ◌>>◌, Uuid, Instant,
  RequestComplement, RequestStatus, request_status_eq, request_complement_requested, request_key,
  complement_key, Env,
}
use fsf_acreditation_backend.Requests.Status.{assert_transition_allowed}
use fsf_acreditation_backend.Requests.Transition.{with_status}

pub record RequestComplementInput : Type 0 where
  pub request_id : Uuid
  pub requested_by_id : Uuid
  pub missing_item : String
  pub comment : Option String
  pub due_date : Option Instant

pub record ResolveComplementInput : Type 0 where
  pub request_id : Uuid
  pub complement_id : Uuid
  pub requester_id : Uuid

abbrev pub new_complement : Env → RequestComplementInput → RequestComplement
new_complement env input = record {
  id = env.new_id;
  request_id = input.request_id;
  requested_by_id = input.requested_by_id;
  missing_item = input.missing_item;
  comment = input.comment;
  due_date = input.due_date;
  resolved_at = none;
}

abbrev pub resolve_at : Instant → RequestComplement → RequestComplement
resolve_at now c = record c { resolved_at = some now }

-- The complements of a request that are still open.
abbrev pub is_open_for : Uuid → RequestComplement → Bool
is_open_for request_id c = c.request_id == request_id && c.resolved_at == none

module _ (db : Prisma) where
  -- `RequestComplementUseCase.execute`
  unfoldable pub request_complement : Env → RequestComplementInput → Action RequestComplement
  request_complement env input = do
    request ←
        or_throw (← gets (λ s. db.find_unique (request_key input.request_id) s.requests))
          (throws ErrorCode.request_not_found ErrorKind.not_found)
    assert_transition_allowed request.status RequestStatus.info_requested
    modify (λ s. record s {
      complements = db.create (new_complement env input) s.complements;
      requests =
          db.update_rows (request_key input.request_id) (with_status RequestStatus.info_requested)
            s.requests;
      decisions =
          db.create
            (record {
              request_id = input.request_id;
              actor_id = input.requested_by_id;
              from_status = request.status;
              to_status = RequestStatus.info_requested;
              reason = some input.missing_item;
            })
            s.decisions;
    })
    publish (request_complement_requested input.request_id request.requester_id input.missing_item)
    pure (new_complement env input)

  -- `ResolveComplementUseCase.execute`
  unfoldable pub resolve_complement : Instant → ResolveComplementInput → Action RequestComplement
  resolve_complement now input = do
    request ←
        or_throw (← gets (λ s. db.find_unique (request_key input.request_id) s.requests))
          (throws ErrorCode.request_not_found ErrorKind.not_found)
    throw_if (not (request.requester_id == input.requester_id))
        (throws ErrorCode.request_not_found ErrorKind.not_found)
    complement ←
        or_throw (← gets (λ s. db.find_unique (complement_key input.complement_id) s.complements))
          (throws ErrorCode.complement_not_found ErrorKind.not_found)
    throw_if (not (complement.request_id == input.request_id))
        (throws ErrorCode.complement_not_found ErrorKind.not_found)
    modify (λ s. record s {
      complements =
          db.update_rows (complement_key input.complement_id) (resolve_at now) s.complements;
    })
    remaining_open ← gets (λ s. db.count_rows (is_open_for input.request_id) s.complements)
    when (remaining_open == 0 && request.status == RequestStatus.info_requested) (
        modify (λ s. record s {
          requests =
              db.update_rows (request_key input.request_id) (with_status RequestStatus.under_review)
                s.requests;
        }))
    pure (resolve_at now complement)
