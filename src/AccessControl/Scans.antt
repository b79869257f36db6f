-- ===== src/AccessControl/Scans.antt =====
-- When a scan shows a badge as valid, and what it records.
use mathlib.Core.Bool.{false≢true}
use fsf_acreditation_backend.Base.{
  ◌≤◌, ◌≡◌, ◌≢◌, ◌↔◌, refl, ap, true, false, nat_eq, option_eq, string_eq, Option, none, some, List,
  [], ◌∷◌, arith, not, ◌⊎◌, inl, inr, ℕ_discrete,
}
use fsf_acreditation_backend.Store.{
  Uuid, Instant, AccreditationStatus, accreditation_status_eq, ScanResult, scan_result_eq,
}
use fsf_acreditation_backend.AccessControl.Service.{
  VerifyScan, Detail, covers, is_uncovered, evaluate,
}

abbrev pub Among : List Uuid → Uuid → Type 0
Among [] z = ⊥
Among (x ∷ xs) z = (x ≡ z) ⊎ Among xs z

-- The zone of a scan, if it names one, is among those of the badge.
abbrev pub Covers : List Uuid → Option Uuid → Type 0
Covers zone_ids none = Unit
Covers zone_ids (some z) = Among zone_ids z

uncovered-Covers :
    (zone_ids : List Uuid) (o : Option Uuid) → is_uncovered o zone_ids ≡ false → Covers zone_ids o
unfolding covers
uncovered-Covers zone_ids none h = tt
uncovered-Covers zone_ids (some z) h = among zone_ids (ground arith)
  where
    among : (ids : List Uuid) → covers ids z ≡ true → Among ids z
    among [] e = absurd (false≢true e)
    among (x ∷ xs) e = elim (ℕ_discrete x z) [
      | yes p ↦ inl p
      | no n ↦ inr (among xs (ground arith))
    ]

Covers-uncovered :
    (zone_ids : List Uuid) (o : Option Uuid) → Covers zone_ids o → is_uncovered o zone_ids ≡ false
unfolding covers
Covers-uncovered zone_ids none h = refl
Covers-uncovered zone_ids (some z) h = ap not (among zone_ids h)
  where
    among : (ids : List Uuid) → Among ids z → covers ids z ≡ true
    among [] m = elim m [ ]
    among (x ∷ xs) (inl p) = ground arith
    among (x ∷ xs) (inr q) = ground (arith, among xs q)

-- What a badge must meet to be let in.
pub record Admissible (now : Instant) (detail : Detail) (dto : VerifyScan) : Type 0 where
  pub not_revoked : detail.badge.status ≢ AccreditationStatus.revoked
  pub not_expired : detail.badge.status ≢ AccreditationStatus.expired
  pub in_time : now ≤ detail.badge.expires_at
  pub right_match : detail.request.match_id ≡ dto.match_id
  pub in_zone : Covers detail.zone_ids dto.zone_id

evaluate-valid :
    (now : Instant) (detail : Detail) (dto : VerifyScan)
    → Admissible now detail dto
    → (evaluate now detail dto).result ≡ ScanResult.valid
unfolding evaluate
evaluate-valid now detail dto ok_badge = ground (
  arith,
  ok_badge.not_revoked,
  ok_badge.not_expired,
  ok_badge.in_time,
  ok_badge.right_match,
  Covers-uncovered detail.zone_ids dto.zone_id ok_badge.in_zone,
)

evaluate-Admissible :
    (now : Instant) (detail : Detail) (dto : VerifyScan)
    → (evaluate now detail dto).result ≡ ScanResult.valid
    → Admissible now detail dto
unfolding evaluate
evaluate-Admissible now detail dto h = record {
  not_revoked = ground arith;
  not_expired = ground arith;
  in_time = ground arith;
  right_match = ground arith;
  in_zone = uncovered-Covers detail.zone_ids dto.zone_id (ground arith);
}

-- The evaluation of a badge says valid exactly if the badge is admissible: neither revoked nor
-- expired, before its end, for the match of the scan and for its zone, if it names one.
pub evaluate_iff :
    (now : Instant) (detail : Detail) (dto : VerifyScan)
    → ((evaluate now detail dto).result ≡ ScanResult.valid) ↔ Admissible now detail dto
evaluate_iff now detail dto = (evaluate-Admissible now detail dto, evaluate-valid now detail dto)
