-- ===== src/AccessControl/Service.antt =====
-- src/modules/access-control/access-control.service.ts.
use fsf_acreditation_backend.Base.{
  Bool, false, Option, none, some, List, [], ◌∷◌, map, not, ◌&&◌, ◌||◌, ◌==◌, ltb, nat_eq,
  string_eq, option_eq, String, get_or, if◌then◌else◌,
}
use fsf_acreditation_backend.Kernel.Errors.{ErrorCode, ErrorKind, Failure, throws}
use fsf_acreditation_backend.Store.{
  Prisma, Action, Database, pure, gets, or_throw, throw_if, modify, has_row, has_optional_row,
  match_key, zone_key, user_key, accreditation_key, ◌>>=◌, ◌>>◌, Uuid, Instant,
  AccreditationRequest, Accreditation, AccreditationStatus, accreditation_status_eq, ScanLog,
  ScanResult, scan_result_eq, ScanSource, request_key,
}
use fsf_acreditation_backend.Accreditations.Service.{Crypto, find_by_raw_token}

-- `VerifyScanDto`
pub record VerifyScan : Type 0 where
  pub token : String
  pub match_id : Uuid
  pub zone_id : Option Uuid
  pub device_id : String
  pub gate : Option String

-- The holder and the scope that a valid scan shows: the identifiers of the rows whose labels the
-- screen displays.
pub record Holder : Type 0 where
  pub requester_id : Uuid
  pub category_id : Uuid
  pub zone_ids : List Uuid
  pub expires_at : Instant

-- `ScanVerdict`
pub record ScanVerdict : Type 0 where
  pub result : ScanResult
  pub reason : Option String
  pub holder : Option Holder

abbrev pub verdict : ScanResult → String → ScanVerdict
verdict result reason = record { result = result; reason = some reason; holder = none }

-- `detail`: the badge with its request and its zones.
pub record Detail : Type 0 where
  pub badge : Accreditation
  pub request : AccreditationRequest
  pub zone_ids : List Uuid

-- `detail.zones.some(...)`
unfoldable pub covers : List Uuid → Uuid → Bool
covers [] zone_id = false
covers (z ∷ zs) zone_id = z == zone_id || covers zs zone_id

-- A zone is asked for, and the badge does not cover it.
abbrev pub is_uncovered : Option Uuid → List Uuid → Bool
is_uncovered none zone_ids = false
is_uncovered (some z) zone_ids = not (covers zone_ids z)

-- `evaluate`
unfoldable pub evaluate : Instant → Detail → VerifyScan → ScanVerdict
unfolding covers
evaluate now detail dto =
    if detail.badge.status == AccreditationStatus.revoked
    then verdict ScanResult.revoked (get_or detail.badge.revocation_reason "Accreditation revoquee")
    else if detail.badge.status == AccreditationStatus.expired || ltb detail.badge.expires_at now
    then verdict ScanResult.expired "Accreditation expiree"
    else if not (detail.request.match_id == dto.match_id)
    then verdict ScanResult.out_of_scope "Cette accreditation ne concerne pas ce match"
    else if is_uncovered dto.zone_id detail.zone_ids
    then verdict ScanResult.out_of_scope "Cette accreditation ne couvre pas cette zone"
    else record { result = ScanResult.valid; reason = none; holder = none }

-- The `where` of `wasAlreadyUsed`.
abbrev pub is_use_of : Uuid → Option Uuid → ScanLog → Bool
is_use_of accreditation_id zone_id l =
    l.accreditation_id == some accreditation_id
    && (l.zone_id == zone_id && l.result == ScanResult.valid)

abbrev pub scan_row :
    Instant → Uuid → VerifyScan → Option Uuid → String → ScanResult → Option String → ScanLog
scan_row now scanned_by_id dto accreditation_id hash result reason = record {
  accreditation_id = accreditation_id;
  scanned_token_hash = hash;
  match_id = dto.match_id;
  zone_id = dto.zone_id;
  gate = dto.gate;
  device_id = dto.device_id;
  scanned_by_id = scanned_by_id;
  result = result;
  reason = reason;
  source = ScanSource.online;
  scanned_at = now;
  synced_at = none;
}

abbrev pub with_holder : Detail → ScanVerdict → ScanVerdict
with_holder detail v =
    if v.result == ScanResult.valid
    then record v {
      holder = some (record {
        requester_id = detail.request.requester_id;
        category_id = detail.request.category_requested_id;
        zone_ids = detail.zone_ids;
        expires_at = detail.badge.expires_at;
      });
    }
    else v

module _ (db : Prisma) where
  -- The `include` of the badge's request and zones; the foreign key keeps the request.
  unfoldable pub load_detail : Accreditation → Action Detail
  load_detail a = do
    request ←
        or_throw (← gets (λ s. db.find_unique (request_key a.request_id) s.requests))
          (throws ErrorCode.request_not_found ErrorKind.not_found)
    zones ← gets (λ s. db.find_many (λ z. z.accreditation_id == a.id) s.accreditation_zones)
    pure (record { badge = a; request = request; zone_ids = map (λ z. z.zone_id) zones })

  -- `wasAlreadyUsed`
  unfoldable pub was_already_used : Uuid → Option Uuid → Action Bool
  was_already_used accreditation_id zone_id =
      gets (λ s. ltb 0 (db.count_rows (is_use_of accreditation_id zone_id) s.scan_logs))

  -- `evaluate`, then the test of an earlier use. The count has no effect, so it can be made on
  -- every branch.
  unfoldable pub judge : Instant → Detail → VerifyScan → Action ScanVerdict
  unfolding was_already_used
  judge now detail dto = do
    used ← was_already_used detail.badge.id dto.zone_id
    let found = evaluate now detail dto
    pure (
        if found.result == ScanResult.valid && used
        then verdict ScanResult.already_used
            "Cette accreditation a deja ete utilisee pour cette zone"
        else found)

  -- The foreign keys of a row of the history: the badge, the match, the zone and the agent.
  unfoldable pub scan_refers : Database → ScanLog → Bool
  scan_refers s row =
      has_optional_row db accreditation_key row.accreditation_id s.accreditations
      && (has_row db (match_key row.match_id) s.matches
          && (has_optional_row db zone_key row.zone_id s.zones
              && has_row db (user_key row.scanned_by_id) s.users))

  -- `logScan`; a row that refers to nothing is refused by the database.
  unfoldable pub log_scan : ScanLog → Action (Unit {0})
  unfolding scan_refers
  log_scan row = do
    throw_if (not (← gets (λ s. scan_refers s row))) Failure.foreign_key_violation
    modify (λ s. record s { scan_logs = db.create row s.scan_logs })

  -- The two ends of `verifyScan`: the token is unknown, or it is that of a badge.
  unfoldable pub check_badge :
      Crypto → Instant → VerifyScan → Uuid → Option Accreditation → Action ScanVerdict
  unfolding load_detail judge log_scan
  check_badge crypto now dto scanned_by_id none = do
    log_scan (
        scan_row now scanned_by_id dto none (crypto.hash dto.token) ScanResult.invalid
          (some "Jeton inconnu"))
    pure (verdict ScanResult.invalid "Jeton inconnu")
  check_badge crypto now dto scanned_by_id (some a) = do
    detail ← load_detail a
    v ← judge now detail dto
    log_scan (scan_row now scanned_by_id dto (some a.id) (crypto.hash dto.token) v.result v.reason)
    pure (with_holder detail v)

  -- `verifyScan`
  unfoldable pub verify_scan : Crypto → Instant → VerifyScan → Uuid → Action ScanVerdict
  unfolding check_badge
  verify_scan crypto now dto scanned_by_id = do
    a ← find_by_raw_token db crypto dto.token
    check_badge crypto now dto scanned_by_id a
