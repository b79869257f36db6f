-- ===== src/Tests/Scans.antt =====
-- Badges, scans and matches.
use fsf_acreditation_backend.Kernel.Errors.{ErrorCode, ErrorKind, Failure, throws}
use fsf_acreditation_backend.Base.{
  List, if◌then◌else◌, ℕ, ◌<◌, ◌⊎◌, All, is_some, list_eq, ◌≡◌, ◌≢◌, ◌↔◌, refl, true, false, some,
  none, [], ◌∷◌, arith, find, select, count, ◌==◌, nat_eq, string_eq, option_eq,
}
use fsf_acreditation_backend.Store.{
  match_key, in_memory, Database, ok, err, accreditation_status_eq, RequestStatus, ScanResult,
  accreditation_key,
}
use fsf_acreditation_backend.Accreditations.Service.{revoke, revoked_by, generate_badge_number}
use fsf_acreditation_backend.Accreditations.Numbering.{candidate, badge_prefix}
use fsf_acreditation_backend.Accreditations.Draws.{generate_badge_number_lem}
use fsf_acreditation_backend.Competitions.Matches.{close_expired_matches}
use fsf_acreditation_backend.Competitions.Closing.{IsOverdue, close_expired_matches-All}
use fsf_acreditation_backend.Requests.Status.{request_transitions}
use fsf_acreditation_backend.Requests.Machine.{Allowed}
use fsf_acreditation_backend.Requests.Transition.{with_status}
use fsf_acreditation_backend.Requests.Cancel.{CancelRequestInput, cancel_request}
use fsf_acreditation_backend.AccessControl.Service.{VerifyScan, ScanVerdict, verify_scan}
use fsf_acreditation_backend.AccessControl.Devices.{OfflineScan}
use fsf_acreditation_backend.AccessControl.Scans.{Admissible}
use fsf_acreditation_backend.AccessControl.Entry.{
  served, token_of, detail_of, uses, logged, verify_scan_iff, verify_scan_twice,
}
use fsf_acreditation_backend.AccessControl.Revoked.{revoke-verify_scan, cancel-verify_scan}
use fsf_acreditation_backend.AccessControl.Gate.{Scan, gate_run}
use fsf_acreditation_backend.AccessControl.Refinement.{
  registry, serves, passes_of, run_scans, run_scans-gate_run,
}
use fsf_acreditation_backend.Tests.Data.{
  start, crypto, env, badge, badged_request, badged_found, quota, quota_found,
}

abbrev gates : Database
gates = record start {
  accreditations = badge ∷ [];
  accreditation_zones = record { accreditation_id = 40; zone_id = 4 } ∷ [];
}

abbrev scan : VerifyScan
scan = record { token = "secret"; match_id = 10; zone_id = some 4; device_id = "d"; gate = none }

badge_by_token :
    in_memory.find_unique (token_of in_memory crypto "secret") gates.accreditations ≡ some badge
unfolding in_memory find
badge_by_token = ground arith

badge_by_id : in_memory.find_unique (accreditation_key 40) gates.accreditations ≡ some badge
unfolding in_memory find
badge_by_id = ground arith

verify_scan_iff_example :
    (v : ScanVerdict) × (verify_scan in_memory crypto 600 scan 2 gates ≡ (
      if served in_memory crypto gates scan 2
      then (ok v, logged in_memory crypto gates 600 2 scan (some 40) v)
      else (err Failure.foreign_key_violation, gates)))
    × ((v.result ≡ ScanResult.valid) ↔ (
        Admissible 600 (detail_of in_memory crypto gates badge badged_request) scan
        × (uses in_memory crypto gates 40 (some 4) ≡ 0)))
verify_scan_iff_example =
    verify_scan_iff in_memory crypto 600 scan 2 gates badge badged_request badge_by_token
      badged_found

admissible : Admissible 600 (detail_of in_memory crypto gates badge badged_request) scan
unfolding in_memory select
admissible = record {
  not_revoked = ground arith;
  not_expired = ground arith;
  in_time = ground arith;
  right_match = refl;
  in_zone = ground arith;
}

unused : uses in_memory crypto gates 40 (some 4) ≡ 0
unfolding in_memory count
unused = refl

scan-served : served in_memory crypto gates scan 2 ≡ true
unfolding served in_memory find
scan-served = ground arith

first_scan :
    (v : ScanVerdict) × (verify_scan in_memory crypto 600 scan 2 gates
      ≡ (ok v, logged in_memory crypto gates 600 2 scan (some 40) v))
    × (v.result ≡ ScanResult.valid)
first_scan =
    let (v, e, valid_iff) =
      verify_scan_iff in_memory crypto 600 scan 2 gates badge badged_request badge_by_token
        badged_found in
    (v, rw scan-served at e, valid_iff.1 (admissible, unused))

verify_scan_twice_example :
    (v : ScanVerdict) × ((verify_scan in_memory crypto 700 scan 3
        (logged in_memory crypto gates 600 2 scan (some 40) first_scan.0)).0
      ≡ (if served in_memory crypto gates scan 3 then ok v else err Failure.foreign_key_violation))
    × (v.result ≢ ScanResult.valid)
verify_scan_twice_example =
    verify_scan_twice in_memory crypto 600 700 scan scan 2 3 gates
      (logged in_memory crypto gates 600 2 scan (some 40) first_scan.0) badge badged_request
      first_scan.0 badge_by_token badged_found first_scan.1 first_scan.2 refl refl

revoke-verify_scan_example :
    ((revoke in_memory 600 40 "lost" 2 gates).0 ≡ ok (revoked_by 600 "lost" 2 badge))
    × ((v : ScanVerdict) × ((verify_scan in_memory crypto 700 scan 3
            (revoke in_memory 600 40 "lost" 2 gates).1).0
          ≡ (if served in_memory crypto gates scan 3
              then ok v
              else err Failure.foreign_key_violation))
        × (v.result ≢ ScanResult.valid))
revoke-verify_scan_example =
    revoke-verify_scan in_memory crypto 600 700 "lost" 2 3 scan gates badge badged_request
      badge_by_id badge_by_token badged_found (λ e. ground arith)

abbrev cancellation : CancelRequestInput
cancellation = record { request_id = 8; actor_id = 2; requester_id = none }

cancel-Allowed : Allowed RequestStatus.badge_generated RequestStatus.cancelled
unfolding request_transitions
cancel-Allowed = ground arith

cancel-verify_scan_example :
    ((cancel_request in_memory cancellation gates).0
      ≡ ok (with_status RequestStatus.cancelled badged_request))
    × ((v : ScanVerdict) × ((verify_scan in_memory crypto 600 scan 2
            (cancel_request in_memory cancellation gates).1).0
          ≡ ok v)
        × (v.result ≡ ScanResult.valid))
cancel-verify_scan_example =
    cancel-verify_scan in_memory crypto 600 2 scan cancellation gates badge badged_request quota
      badge_by_token badged_found admissible unused scan-served refl refl cancel-Allowed quota_found

abbrev offline_scan : OfflineScan
offline_scan = record {
  accreditation_id = 40;
  match_id = 10;
  zone_id = some 4;
  device_id = "d";
  gate = none;
  result = ScanResult.valid;
  scanned_at = 550;
}

-- A scan of a match that is not stored, between two that can be logged.
abbrev offline_upload : List OfflineScan
offline_upload =
    offline_scan
    ∷ record offline_scan { match_id = 99; scanned_at = 560 }
    ∷ record offline_scan { scanned_at = 570 }
    ∷ []

generate_badge_number_lem_example :
    ((k : ℕ) × (k < 5)
      × (generate_badge_number in_memory env gates ≡ (ok (candidate badge_prefix 2026 k), gates))
      × (is_some
            (in_memory.find_unique (λ a. a.number == candidate badge_prefix 2026 k) (badge ∷ []))
          ≡ false))
    ⊎ ((generate_badge_number in_memory env gates
          ≡ (err (throws ErrorCode.badge_number_generation_failed ErrorKind.conflict), gates))
        × All
            (λ k.
              is_some (
                in_memory.find_unique (λ a. a.number == candidate badge_prefix 2026 k) (badge ∷ []))
              ≡ true)
            (0 ∷ 1 ∷ 2 ∷ 3 ∷ 4 ∷ []))
generate_badge_number_lem_example = generate_badge_number_lem in_memory env gates

close_expired_matches-All_example :
    let (result, s') = close_expired_matches in_memory 1001 gates in
    (result ≡ ok tt)
    × All (λ r. ¬ IsOverdue in_memory 1001 r) s'.matches
    × ((in_memory.find_unique (match_key 10) s'.matches
          ≡ in_memory.find_unique (match_key 10) gates.matches)
        ⊎ (¬ All (λ r. r.id ≡ 10 → ¬ IsOverdue in_memory 1001 r) gates.matches))
close_expired_matches-All_example = close_expired_matches-All in_memory 1001 gates 10

abbrev two_scans : List Scan
two_scans =
    record { now = 600; dto = scan; scanned_by_id = 2 }
    ∷ record { now = 700; dto = scan; scanned_by_id = 3 }
    ∷ []

run_scans-gate_run_example :
    run_scans in_memory crypto two_scans gates
    ≡ gate_run
        (registry in_memory crypto gates)
        (serves in_memory crypto gates)
        two_scans
        (passes_of in_memory crypto gates)
run_scans-gate_run_example = run_scans-gate_run in_memory crypto two_scans gates
