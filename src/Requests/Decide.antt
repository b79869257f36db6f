-- ===== src/Requests/Decide.antt =====
-- src/modules/requests/application/commands/decide-request.usecase.ts.
use fsf_acreditation_backend.Base.{
  Bool, Option, none, some, List, [], not, nat_eq, get_or, or_else, String, if◌then◌else◌,
}
use fsf_acreditation_backend.Kernel.Errors.{ErrorCode, ErrorKind, throws}
use fsf_acreditation_backend.Store.{
  Prisma, Action, pure, gets, or_throw, throw_if, modify, publish, ◌>>=◌, ◌>>◌, Uuid, Instant,
  AccreditationRequest, RequestDecision, RequestStatus, request_status_eq, request_decided,
  request_key, Env,
}
use fsf_acreditation_backend.Accreditations.Service.{Crypto, Assignment, generate_accreditation}
use fsf_acreditation_backend.Quotas.Service.{reserve_slot}
use fsf_acreditation_backend.Requests.Status.{assert_transition_allowed}
use fsf_acreditation_backend.Requests.Transition.{with_status}

-- `typeof RequestStatus.VALIDATED | typeof RequestStatus.REJECTED`
pub data Verdict : Type 0 where
  validate reject : Verdict

abbrev pub verdict_status : Verdict → RequestStatus
verdict_status validate = RequestStatus.validated
verdict_status reject = RequestStatus.rejected

pub record DecideRequestInput : Type 0 where
  pub request_id : Uuid
  pub actor_id : Uuid
  pub actor_is_admin : Bool
  pub status : Verdict
  pub reason : Option String
  pub zone_ids : Option (List Uuid)
  pub override_quota : Bool
  pub assignment : Assignment

abbrev pub decided : Instant → DecideRequestInput → AccreditationRequest → AccreditationRequest
decided now input r = record r {
  status = verdict_status input.status;
  decision_at = some now;
  decision_by_id = some input.actor_id;
  decision_reason = or_else input.reason r.decision_reason;
}

abbrev pub decision_row :
    AccreditationRequest
    → DecideRequestInput
    → (from to : RequestStatus) → Option String
    → RequestDecision
decision_row request input from to reason = record {
  request_id = request.id;
  actor_id = input.actor_id;
  from_status = from;
  to_status = to;
  reason = reason;
}

module _ (db : Prisma) where
  -- `reserveQuotaOrThrow`. Its last two branches throw the same code; they differ in the text.
  unfoldable pub reserve_quota_or_throw :
      AccreditationRequest → DecideRequestInput → Action (Unit {0})
  reserve_quota_or_throw request input =
      if input.override_quota
      then throw_if (not input.actor_is_admin)
          (throws ErrorCode.forbidden_scope ErrorKind.forbidden)
      else do
        reservation ← reserve_slot db request.match_id request.category_requested_id
        throw_if (not reservation.reserved)
            (throws ErrorCode.quota_exceeded ErrorKind.quota_exceeded)

  -- The first transaction: the decision on the request.
  unfoldable pub write_decision :
      Instant → AccreditationRequest → DecideRequestInput → Action AccreditationRequest
  write_decision now request input = do
    modify (λ s. record s {
      requests = db.update_rows (request_key request.id) (decided now input) s.requests;
      decisions =
          db.create
            (decision_row request input request.status (verdict_status input.status) input.reason)
            s.decisions;
    })
    pure (decided now input request)

  -- The badge, and the second transaction.
  unfoldable pub generate_badge :
      Crypto → Env → AccreditationRequest → DecideRequestInput → Action AccreditationRequest
  generate_badge crypto env request input = do
    generate_accreditation db crypto env request.id (get_or input.zone_ids []) input.assignment
    modify (λ s. record s {
      requests =
          db.update_rows (request_key request.id) (with_status RequestStatus.badge_generated)
            s.requests;
      decisions =
          db.create
            (decision_row request input RequestStatus.validated RequestStatus.badge_generated none)
            s.decisions;
    })
    pure (with_status RequestStatus.badge_generated (decided env.now input request))

  -- `DecideRequestUseCase.execute` past the guards, on each verdict.
  unfoldable pub carry_out :
      Crypto
      → Env
      → AccreditationRequest
      → DecideRequestInput
      → Verdict
      → Action AccreditationRequest
  unfolding reserve_quota_or_throw write_decision generate_badge
  carry_out crypto env request input reject = do
    updated ← write_decision env.now request input
    publish (
        request_decided request.id request.requester_id RequestStatus.rejected input.reason
          (get_or input.zone_ids []))
    pure updated
  carry_out crypto env request input validate = do
    reserve_quota_or_throw request input
    write_decision env.now request input
    publish (
        request_decided request.id request.requester_id RequestStatus.validated input.reason
          (get_or input.zone_ids []))
    generate_badge crypto env request input

  -- `DecideRequestUseCase.execute`
  unfoldable pub decide_request : Crypto → Env → DecideRequestInput → Action AccreditationRequest
  unfolding carry_out
  decide_request crypto env input = do
    request ←
        or_throw (← gets (λ s. db.find_unique (request_key input.request_id) s.requests))
          (throws ErrorCode.request_not_found ErrorKind.not_found)
    assert_transition_allowed request.status (verdict_status input.status)
    carry_out crypto env request input input.status
