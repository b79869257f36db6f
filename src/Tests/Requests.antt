-- ===== src/Tests/Requests.antt =====
-- Requests and quotas.
use fsf_acreditation_backend.Base.{
  subst, sym, ◌≡◌, refl, none, some, List, [], find, ◌∷◌, arith, ltb,
}
use fsf_acreditation_backend.Kernel.Errors.{ErrorCode, ErrorKind, throws}
use fsf_acreditation_backend.Store.{
  quota_key, in_memory, Match, match_key, Database, ok, err, AccreditationRequest,
  MatchCategoryQuota, RequestStatus, request_status_eq, request_key, quota_of, throw_if, or_throw,
  request_cancelled,
}
use fsf_acreditation_backend.Competitions.Window.{Accepting}
use fsf_acreditation_backend.Quotas.Service.{has_room, add_one, SetQuota, set_quota, reserve_slot}
use fsf_acreditation_backend.Quotas.Laws.{
  Distinct, Within, reserved_row, reservation_of, reserve_slot_lem,
}
use fsf_acreditation_backend.Quotas.Setting.{Covers, set_quota-Within}
use fsf_acreditation_backend.Quotas.Race.{Pending, ◌⟶*◌, reads, writes, step, stop, ⟶*-Within}
use fsf_acreditation_backend.Requests.Status.{request_transitions}
use fsf_acreditation_backend.Requests.Draft.{SaveDraftInput}
use fsf_acreditation_backend.Requests.Submit.{SubmitRequestInput, submit_request}
use fsf_acreditation_backend.Requests.Submission.{
  Submitted, submit_request-Submitted, submit_request_only, submit_request_refused,
}
use fsf_acreditation_backend.Requests.Cancel.{CancelRequestInput, cancel_request}
use fsf_acreditation_backend.Requests.Rows.{Continues}
use fsf_acreditation_backend.Requests.Machine.{Allowed}
use fsf_acreditation_backend.Requests.Transition.{with_status}
use fsf_acreditation_backend.Requests.Cancellation.{cancel_request_lem, cancel_request_no_quota}
use fsf_acreditation_backend.Requests.History.{
  Call, save, submit, cancel, decide, run, AllFresh, run-Continues, run-IsTerminal,
}
use fsf_acreditation_backend.Requests.Capacity.{run-Within}
use fsf_acreditation_backend.Tests.Data.{
  start, crypto, env, decision, draft_request, complete_request, badged_request, rejected_request,
  quota, open_match, complete_found, draft_found, badged_found, rejected_found, quota_found,
  match_found, start-Distinct, start-Within,
}

abbrev submission : SubmitRequestInput
submission = record { request_id = 6; requester_id = 7; actor_user_id = 2 }

abbrev cancellation : CancelRequestInput
cancellation = record { request_id = 8; actor_id = 2; requester_id = none }

abbrev draft_input : SaveDraftInput
draft_input = record {
  requester_id = 11;
  match_id = 10;
  category_requested_id = 1;
  role_in_event = none;
  needs_desk = none;
  needs_power = none;
  needs_lan_wifi = none;
  car_plate_number = none;
  preferred_zone_ids = none;
}

-- A draft is saved, another submitted, a request decided, and one with a badge cancelled.
abbrev calls : List Call
calls =
    save env draft_input
    ∷ submit 500 submission
    ∷ decide crypto env decision
    ∷ cancel cancellation
    ∷ []

calls-AllFresh : AllFresh in_memory calls start
unfolding in_memory find
calls-AllFresh = (ground arith, (tt, (tt, (tt, tt))))

run-Continues_example :
    (r' : AccreditationRequest) × (in_memory.find_unique
        (request_key 5)
        (run in_memory calls start).requests
      ≡ some r')
    × Continues complete_request r'
run-Continues_example =
    run-Continues in_memory calls start 5 complete_request calls-AllFresh complete_found

run-IsTerminal_example :
    (r' : AccreditationRequest) × (in_memory.find_unique
        (request_key 9)
        (run in_memory calls start).requests
      ≡ some r')
    × (r'.status ≡ RequestStatus.rejected)
run-IsTerminal_example =
    run-IsTerminal in_memory calls start 9 rejected_request calls-AllFresh rejected_found
      (ground arith)

run-Within_example :
    Distinct (run in_memory calls start).quotas × Within (run in_memory calls start).quotas
run-Within_example = run-Within in_memory calls start start-Distinct start-Within

window : Accepting 500 open_match
window = record { is_open = refl; opened = ground arith; not_closed = ground arith }

submit_request-Submitted_example : Submitted in_memory 500 submission start draft_request
submit_request-Submitted_example =
    submit_request-Submitted in_memory 500 submission start draft_request open_match draft_found
      refl match_found refl window

accepted : Submitted in_memory 500 submission start draft_request
accepted =
    submit_request-Submitted in_memory 500 submission start draft_request open_match draft_found
      refl match_found refl window

submit_request_only_example :
    (r : AccreditationRequest) × (m : Match) × (in_memory.find_unique (request_key 6) start.requests
      ≡ some r)
    × (in_memory.find_unique (match_key r.match_id) start.matches ≡ some m)
    × (r.requester_id ≡ 7)
    × (r.status ≡ RequestStatus.draft)
    × Accepting 500 m
submit_request_only_example =
    submit_request_only in_memory 500 submission start accepted.row accepted.returned

abbrev foreign : SubmitRequestInput
foreign = record submission { requester_id = 99 }

foreign_refused :
    (submit_request in_memory 500 foreign start).0
    ≡ err (throws ErrorCode.request_not_found ErrorKind.not_found)
unfolding submit_request in_memory find or_throw throw_if
foreign_refused = ground arith

submit_request_refused_example : (submit_request in_memory 500 foreign start).1 ≡ start
submit_request_refused_example =
    submit_request_refused in_memory 500 foreign start
      (throws ErrorCode.request_not_found ErrorKind.not_found) foreign_refused

reserve_slot_lem_example :
    (rows : List MatchCategoryQuota) × (reserve_slot in_memory 10 1 start
      ≡ (ok (reservation_of (ltb 1 2) (reserved_row quota)), record start { quotas = rows }))
    × (in_memory.find_unique (quota_of 10 1) rows ≡ some (reserved_row quota))
reserve_slot_lem_example = reserve_slot_lem in_memory 10 1 start quota start-Distinct quota_found

abbrev pending : Pending
pending = record { quota_id = 3; total = 2 }

abbrev raised : List MatchCategoryQuota
raised =
    in_memory.update_rows (has_room 3 2) add_one
      (in_memory.update_rows (has_room 3 2) add_one start.quotas)

-- Two calls read the total before either of them updates.
two_calls :
    ◌⟶*◌ in_memory
      (record { rows = start.quotas; pending = [] })
      (record { rows = raised; pending = [] })
two_calls = step (reads 10 1 quota_found) (
    step (reads 10 1 quota_found)
      (step (writes [] (pending ∷ []) pending) (step (writes [] [] pending) stop)))

⟶*-Within_example : Within raised
⟶*-Within_example = ⟶*-Within in_memory two_calls start-Distinct start-Within refl

cancel-Allowed : Allowed RequestStatus.badge_generated RequestStatus.cancelled
unfolding request_transitions
cancel-Allowed = ground arith

cancel_request_lem_example :
    let (result, s') = cancel_request in_memory cancellation start in
    (result ≡ ok (with_status RequestStatus.cancelled badged_request))
    × (in_memory.find_unique (request_key 8) s'.requests
        ≡ some (with_status RequestStatus.cancelled badged_request))
    × (in_memory.find_unique (quota_of 10 1) s'.quotas ≡ some (record quota { consumed = 0 }))
    × (s'.events ≡ request_cancelled 8 RequestStatus.badge_generated ∷ [])
cancel_request_lem_example =
    cancel_request_lem in_memory cancellation start badged_request quota badged_found refl
      cancel-Allowed quota_found

abbrev no_quota : Database
no_quota = record start { quotas = [] }

no_quota_found : in_memory.find_unique (quota_of 10 1) no_quota.quotas ≡ none
unfolding in_memory find
no_quota_found = refl

cancel_request_no_quota_example :
    let (result, s') = cancel_request in_memory cancellation no_quota in
    (result ≡ err (throws ErrorCode.quota_not_configured ErrorKind.conflict))
    × (in_memory.find_unique (request_key 8) s'.requests
        ≡ some (with_status RequestStatus.cancelled badged_request))
    × (s'.events ≡ [])
cancel_request_no_quota_example =
    cancel_request_no_quota in_memory cancellation no_quota badged_request badged_found refl
      cancel-Allowed (ground arith) no_quota_found

abbrev setting : SetQuota
setting = record { category_id = 1; quota_total = 1; overflow_policy = none; zone_ids = [] }

setting_fresh : in_memory.find_unique (quota_key 50) start.quotas ≡ none
unfolding in_memory find
setting_fresh = ground arith

setting-Covers : Covers setting (in_memory.find_unique (quota_of 10 1) start.quotas)
setting-Covers = subst (Covers setting) (sym quota_found) (ground arith)

set_quota-Within_example :
    Distinct (set_quota in_memory env 10 setting start).1.quotas
    × Within (set_quota in_memory env 10 setting start).1.quotas
set_quota-Within_example =
    set_quota-Within in_memory env 10 setting start setting_fresh start-Distinct start-Within
      setting-Covers
