-- ===== src/Reporting/Dashboard.antt =====
-- dashboard.service.ts. The time of the computation and the last scans of a day are left out.
use fsf_acreditation_backend.Base.{
  ℕ, ◌+◌, ◌*◌, ◌/◌, Bool, true, false, Option, none, some, List, [], ◌∷◌, map, ◌&&◌, ◌==◌, nat_eq,
  option_eq, string_eq, String, includes, length, ltb, if◌then◌else◌,
}
use fsf_acreditation_backend.Kernel.Listing.{filter_eq}
use fsf_acreditation_backend.Store.{
  Prisma, Action, Database, gets, Uuid, AccreditationRequest, Accreditation, AccreditationStatus,
  accreditation_status_eq, ScanLog, ScanResult, scan_result_eq, RequestStatus, request_status_eq,
  match_key, profile_key, request_key,
}

-- `DashboardFilterDto`
pub record DashboardFilter : Type 0 where
  pub match_id : Option Uuid
  pub category_id : Option Uuid
  pub competition_id : Option Uuid
  pub media_id : Option Uuid

-- `PENDING_STATUSES` and `VALIDATED_STATUSES`
abbrev pub pending_statuses : List RequestStatus
pending_statuses =
    RequestStatus.submitted ∷ RequestStatus.under_review ∷ RequestStatus.complete
    ∷ RequestStatus.pending_validation ∷ []

abbrev pub validated_statuses : List RequestStatus
validated_statuses =
    RequestStatus.validated ∷ RequestStatus.badge_generated ∷ RequestStatus.access_used ∷ []

pub record RequestCounts : Type 0 where
  pub total : ℕ
  pub pending : ℕ
  pub validated : ℕ
  pub rejected : ℕ
  pub incomplete : ℕ

pub record GlobalStats : Type 0 where
  pub requests : RequestCounts
  pub generated : ℕ
  pub used : ℕ
  pub media : ℕ
  pub requesters : ℕ
  -- In tenths of a percent.
  pub completion_rate : ℕ

pub record MatchDayStats : Type 0 where
  pub accredited : ℕ
  pub entries : ℕ
  pub refusals : ℕ
  pub scans_by_result : ScanResult → ℕ
  pub active_devices : ℕ

-- `toFixed(1)` of the percentage, in tenths, rounded to the nearest; the double is taken as exact.
abbrev pub rate_tenths : ℕ → ℕ → ℕ
rate_tenths validated total = if ltb 0 total then (validated * 2000 + total) / (2 * total) else 0

abbrev pub all_results : List ScanResult
all_results =
    ScanResult.valid ∷ ScanResult.invalid ∷ ScanResult.expired ∷ ScanResult.revoked
    ∷ ScanResult.already_used ∷ ScanResult.out_of_scope ∷ []

-- The sum over every result but one; a result without scans adds nothing.
unfoldable pub sum_except : ScanResult → (ScanResult → ℕ) → List ScanResult → ℕ
sum_except r counts [] = 0
sum_except r counts (x ∷ xs) =
    let rest = sum_except r counts xs in if x == r then rest else counts x + rest

-- `distinct: ['deviceId']`
unfoldable pub distinct_devices : List String → List String
distinct_devices [] = []
distinct_devices (d ∷ ds) =
    let rest = distinct_devices ds in if includes rest d then rest else d ∷ rest

module _ (db : Prisma) where
  -- `match: { competitionId }` and `requester: { mediaId }`
  abbrev pub in_competition : Database → Option Uuid → Uuid → Bool
  in_competition s none match_id = true
  in_competition s (some id) match_id = elim (db.find_unique (match_key match_id) s.matches) [
    | none ↦ false
    | some m ↦ m.competition_id == id
  ]

  abbrev pub of_media : Database → Option Uuid → Uuid → Bool
  of_media s none requester_id = true
  of_media s (some id) requester_id = elim (db.find_unique (profile_key requester_id) s.profiles) [
    | none ↦ false
    | some p ↦ p.media_id == id
  ]

  -- `where`, the same in both services.
  abbrev pub request_filter : Database → DashboardFilter → AccreditationRequest → Bool
  request_filter s filter r =
      filter_eq filter.match_id r.match_id
      && (filter_eq filter.category_id r.category_requested_id
          && (in_competition s filter.competition_id r.match_id
              && of_media s filter.media_id r.requester_id))

  -- `request: where`
  abbrev pub badge_filter : Database → DashboardFilter → Accreditation → Bool
  badge_filter s filter a = elim (db.find_unique (request_key a.request_id) s.requests) [
    | none ↦ false
    | some r ↦ request_filter s filter r
  ]

  -- `scans: { some: { result: VALID } }`
  abbrev pub was_used : Database → Accreditation → Bool
  was_used s a = ltb 0 (
      db.count_rows (λ x. x.accreditation_id == some a.id && x.result == ScanResult.valid)
        s.scan_logs)

  -- `getGlobalStats`
  unfoldable pub get_global_stats : DashboardFilter → Action GlobalStats
  get_global_stats filter = gets (λ s.
      let total = db.count_rows (request_filter s filter) s.requests in
      let validated =
        db.count_rows (λ r. request_filter s filter r && includes validated_statuses r.status)
          s.requests in
      record {
        requests = record {
          total = total;
          pending =
              db.count_rows (λ r. request_filter s filter r && includes pending_statuses r.status)
                s.requests;
          validated = validated;
          rejected =
              db.count_rows (λ r. request_filter s filter r && r.status == RequestStatus.rejected)
                s.requests;
          incomplete =
              db.count_rows
                (λ r. request_filter s filter r && r.status == RequestStatus.info_requested)
                s.requests;
        };
        generated = db.count_rows (badge_filter s filter) s.accreditations;
        used = db.count_rows (λ a. badge_filter s filter a && was_used s a) s.accreditations;
        media = db.count_rows (λ m. true) s.media;
        requesters = db.count_rows (λ p. true) s.profiles;
        completion_rate = rate_tenths validated total;
      })

  -- `getMatchDayStats`, less the figures by zone.
  unfoldable pub get_match_day_stats : Uuid → Action MatchDayStats
  unfolding sum_except distinct_devices
  get_match_day_stats match_id = gets (λ s.
      let of_match : ScanLog → Bool = λ x. x.match_id == match_id in
      let by_result : ScanResult → ℕ =
        λ result. db.count_rows (λ x. of_match x && x.result == result) s.scan_logs in
      record {
        accredited =
            db.count_rows (λ a. is_of_match s a && a.status == AccreditationStatus.active)
              s.accreditations;
        entries = by_result ScanResult.valid;
        refusals = sum_except ScanResult.valid by_result all_results;
        scans_by_result = by_result;
        active_devices =
            length (distinct_devices (map (λ x. x.device_id) (db.find_many of_match s.scan_logs)));
      })
    where
      is_of_match : Database → Accreditation → Bool
      is_of_match s a = elim (db.find_unique (request_key a.request_id) s.requests) [
        | none ↦ false
        | some r ↦ r.match_id == match_id
      ]
