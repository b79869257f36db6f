-- ===== src/Tests/Decisions.antt =====
-- Decisions.
use fsf_acreditation_backend.Base.{
  inr, ◌+◌, ◌≡◌, refl, true, false, some, none, List, [], ◌∷◌, arith, find, if◌then◌else◌, inl,
}
use fsf_acreditation_backend.Kernel.Errors.{ErrorCode, ErrorKind, Failure, throws}
use fsf_acreditation_backend.Store.{
  in_memory, ok, err, AccreditationRequest, MatchCategoryQuota, RequestStatus, request_key,
  quota_of, Text, throw_if,
}
use fsf_acreditation_backend.Accreditations.Numbering.{candidate, badge_prefix, first_free}
use fsf_acreditation_backend.Accreditations.Service.{collides, zones_known, zones_clash}
use fsf_acreditation_backend.Accreditations.Issue.{new_badge, free_badge_number}
use fsf_acreditation_backend.Requests.Status.{request_transitions}
use fsf_acreditation_backend.Requests.Machine.{Allowed}
use fsf_acreditation_backend.Requests.Transition.{with_status}
use fsf_acreditation_backend.Requests.Decide.{
  DecideRequestInput, validate, decided, reserve_quota_or_throw, decide_request,
}
use fsf_acreditation_backend.Requests.Cancel.{CancelRequestInput, cancel_request}
use fsf_acreditation_backend.Requests.Verdicts.{
  charged, decide_request-charged, decide_request_no_room,
}
use fsf_acreditation_backend.Requests.Validation.{decide_request_validates}
use fsf_acreditation_backend.Requests.Balance.{decide-cancel}
use fsf_acreditation_backend.Requests.Unfinished.{decide_request_unknown_zone}
use fsf_acreditation_backend.Tests.Data.{
  start, full, crypto, env, decision, complete_request, quota, full_quota, open_match,
  complete_found, quota_found, full_found, match_found, start-Distinct, full-Distinct,
}

validate-Allowed : Allowed RequestStatus.complete RequestStatus.validated
unfolding request_transitions
validate-Allowed = ground arith

decide_request-charged_example :
    in_memory.find_unique
      (quota_of 10 1)
      (decide_request in_memory crypto env decision start).1.quotas
    ≡ some (charged decision validate quota)
decide_request-charged_example =
    decide_request-charged in_memory crypto env decision start complete_request quota complete_found
      validate-Allowed start-Distinct quota_found

decide_request_no_room_example :
    (rows : List MatchCategoryQuota) × (decide_request in_memory crypto env decision full ≡ (
      err (throws ErrorCode.quota_exceeded ErrorKind.quota_exceeded),
      record full { quotas = rows },
    ))
    × (in_memory.find_unique (quota_of 10 1) rows ≡ some full_quota)
decide_request_no_room_example =
    decide_request_no_room in_memory crypto env decision full complete_request full_quota
      complete_found validate-Allowed refl refl full-Distinct full_found (ground arith)

abbrev entitled : DecideRequestInput
entitled = record decision { override_quota = true }

abbrev number : Text
number = candidate badge_prefix 2026 0

number_free : free_badge_number in_memory env [] ≡ some number
unfolding in_memory find first_free
number_free = ground arith

badge_fresh :
    in_memory.find_first
      (collides
        (new_badge crypto env complete_request open_match number (4 ∷ []) decision.assignment))
      []
    ≡ none
unfolding in_memory find
badge_fresh = refl

zones_fit : zones_known in_memory (4 ∷ []) start.zones ≡ true
unfolding zones_known in_memory find
zones_fit = ground arith

zones_apart : zones_clash in_memory 50 (4 ∷ []) start.accreditation_zones ≡ false
unfolding zones_clash in_memory find
zones_apart = ground arith

guard_passed :
    reserve_quota_or_throw in_memory complete_request entitled start
    ≡ (ok tt, record start { quotas = quota ∷ [] })
unfolding reserve_quota_or_throw throw_if
guard_passed = ground arith

abbrev done : AccreditationRequest
done = with_status RequestStatus.badge_generated (decided 500 entitled complete_request)

decide_request_validates_example :
    let (result, s') = decide_request in_memory crypto env entitled start in
    (result ≡ ok done)
    × (in_memory.find_unique (request_key 5) s'.requests ≡ some done)
    × (s'.accreditations
        ≡ new_badge crypto env complete_request open_match number (4 ∷ []) entitled.assignment ∷ [])
    × (s'.quotas ≡ quota ∷ [])
decide_request_validates_example =
    decide_request_validates in_memory crypto env entitled start complete_request open_match number
      (quota ∷ []) complete_found validate-Allowed refl guard_passed match_found number_free
      badge_fresh zones_fit zones_apart

abbrev undo : CancelRequestInput
undo = record { request_id = 5; actor_id = 2; requester_id = none }

decide-cancel_example :
    let s' = (decide_request in_memory crypto env entitled start).1 in
    let (result, s'') = cancel_request in_memory undo s' in
    ((decide_request in_memory crypto env entitled start).0 ≡ ok done)
    × (result ≡ ok (with_status RequestStatus.cancelled done))
    × (in_memory.find_unique (quota_of 10 1) s''.quotas
        ≡ some (if entitled.override_quota then record quota { consumed = 0 } else quota))
decide-cancel_example =
    decide-cancel in_memory crypto env entitled undo start complete_request quota open_match number
      complete_found validate-Allowed refl start-Distinct quota_found (inl (refl, refl)) match_found
      number_free badge_fresh zones_fit zones_apart refl refl

-- Zone 9 is not stored.
abbrev lost : DecideRequestInput
lost = record decision { zone_ids = some (9 ∷ []) }

lost_fresh :
    in_memory.find_first
      (collides (new_badge crypto env complete_request open_match number (9 ∷ []) lost.assignment))
      start.accreditations
    ≡ none
unfolding in_memory
lost_fresh = refl

zone_unknown : zones_known in_memory (9 ∷ []) start.zones ≡ false
unfolding zones_known in_memory find
zone_unknown = ground arith

decide_request_unknown_zone_example :
    let (result, s') = decide_request in_memory crypto env lost start in
    (result ≡ err Failure.foreign_key_violation)
    × ((left : AccreditationRequest) × (in_memory.find_unique (request_key 5) s'.requests
          ≡ some left)
        × (left.status ≡ RequestStatus.validated))
    × (in_memory.find_unique (quota_of 10 1) s'.quotas
        ≡ some
            (if lost.override_quota then quota else record quota { consumed = quota.consumed + 1 }))
    × (s'.accreditations ≡ start.accreditations)
decide_request_unknown_zone_example =
    decide_request_unknown_zone in_memory crypto env lost start complete_request quota open_match
      number complete_found validate-Allowed refl start-Distinct quota_found
      (inr (refl, ground arith)) match_found number_free lost_fresh zone_unknown
