-- ===== src/Reporting/Figures.antt =====
-- The figures of the dashboards agree with each other.
use native.Mathlib.Nat.{div-lt_iff_lt-mul, div-mul-le_self, lt-div-mul-add}
use fsf_acreditation_backend.Base.{
  ℕ, ◌+◌, ◌*◌, ◌/◌, ◌≤◌, ◌<◌, ◌≡◌, refl, ap, ◌∙◌, Bool, List, [], ◌∷◌, ◌&&◌, ◌==◌, nat_eq, arith,
  includes, count, ltb, Bool-cases, inl, inr,
}
use fsf_acreditation_backend.Store.{
  Prisma, Database, ok, AccreditationRequest, scan_result_eq, RequestStatus, request_status_eq,
}
use fsf_acreditation_backend.Requests.Cancellation.{took_slot}
use fsf_acreditation_backend.Reporting.Dashboard.{
  DashboardFilter, GlobalStats, pending_statuses, validated_statuses, rate_tenths, request_filter,
  badge_filter, was_used, get_global_stats,
}

-- The requests that pass a test and have a status of a group.
abbrev pending_of : (AccreditationRequest → Bool) → AccreditationRequest → Bool
pending_of t r = t r && includes pending_statuses r.status

abbrev validated_of : (AccreditationRequest → Bool) → AccreditationRequest → Bool
validated_of t r = t r && includes validated_statuses r.status

abbrev rejected_of : (AccreditationRequest → Bool) → AccreditationRequest → Bool
rejected_of t r = t r && r.status == RequestStatus.rejected

abbrev incomplete_of : (AccreditationRequest → Bool) → AccreditationRequest → Bool
incomplete_of t r = t r && r.status == RequestStatus.info_requested

-- The groups of statuses have nothing in common.
groups_apart :
    (t : AccreditationRequest → Bool) (xs : List AccreditationRequest)
    → count (pending_of t) xs
        + count (validated_of t) xs
        + count (rejected_of t) xs
        + count (incomplete_of t) xs
      ≤ count t xs
unfolding count
groups_apart t [] = omega arith
groups_apart t (x ∷ xs) = ground (arith, groups_apart t xs)

-- The rate is the nearest number of tenths of a percent.
abbrev pub IsRate : ℕ → ℕ → ℕ → Type 0
IsRate part whole rate =
    (rate ≤ 1000)
    × (rate * (2 * whole) ≤ part * 2000 + whole)
    × (part * 2000 ≤ rate * (2 * whole) + whole)

rounded-IsRate :
    (part whole : ℕ)
    → part ≤ whole
    → 0 < whole
    → IsRate part whole ((part * 2000 + whole) / (2 * whole))
rounded-IsRate part whole h positive =
    let below =
      div-lt_iff_lt-mul {k = 2 * whole} {x = part * 2000 + whole} {y = 1001} (omega arith) in
    let under = div-mul-le_self (part * 2000 + whole) (2 * whole) in
    let over = lt-div-mul-add {a = part * 2000 + whole} {b = 2 * whole} (omega arith) in
    let few = below.1 (omega arith) in (omega arith, under, omega arith)

rate_tenths-IsRate : (part whole : ℕ) → part ≤ whole → IsRate part whole (rate_tenths part whole)
rate_tenths-IsRate part whole h = elim (Bool-cases (ltb 0 whole)) [
  | inl e ↦ rw e (rounded-IsRate part whole h (ground arith))
  | inr e ↦ rw e (ground arith, ground arith, ground arith)
]

count_part {ℓ} :
    {A : Type ℓ} (t a : A → Bool) (xs : List A) → count (λ x. t x && a x) xs ≤ count t xs
unfolding count
count_part t a [] = omega arith
count_part t a (x ∷ xs) = ground (arith, count_part t a xs)

count-eq {ℓ} :
    {A : Type ℓ} (p q : A → Bool) (xs : List A) → ((x : A) → p x ≡ q x) → count p xs ≡ count q xs
unfolding count
count-eq p q [] h = refl
count-eq p q (x ∷ xs) h = ground (arith, h x, count-eq p q xs h)

-- The requests that count as validated are those that took a slot of a quota.
validated-took_slot :
    (status : RequestStatus) → includes validated_statuses status ≡ took_slot status
unfolding request_status_eq
validated-took_slot RequestStatus.draft = refl
validated-took_slot RequestStatus.submitted = refl
validated-took_slot RequestStatus.under_review = refl
validated-took_slot RequestStatus.info_requested = refl
validated-took_slot RequestStatus.complete = refl
validated-took_slot RequestStatus.pending_validation = refl
validated-took_slot RequestStatus.validated = refl
validated-took_slot RequestStatus.rejected = refl
validated-took_slot RequestStatus.cancelled = refl
validated-took_slot RequestStatus.badge_generated = refl
validated-took_slot RequestStatus.access_used = refl

module _ (db : Prisma) where
  -- The statistics answer without a write. Under any filter, the pending, validated, rejected and
  -- incomplete requests are together no more than all requests, no more badges were used than
  -- generated, the validated are those that were validated, have their badge or were let in, and the
  -- rate of completion is the share of the validated requests in tenths of a percent, to the
  -- nearest, never above 100 percent.
  pub get_global_stats_bounds :
      (filter : DashboardFilter) (s : Database)
      → (stats : GlobalStats) × (get_global_stats db filter s ≡ (ok stats, s))
        × (stats.requests.pending + stats.requests.validated + stats.requests.rejected
              + stats.requests.incomplete
            ≤ stats.requests.total)
        × (stats.used ≤ stats.generated)
        × (stats.requests.validated
            ≡ count (λ r. request_filter db s filter r && took_slot r.status) s.requests)
        × IsRate stats.requests.validated stats.requests.total stats.completion_rate
  unfolding get_global_stats
  get_global_stats_bounds filter s =
      let t = request_filter db s filter in
      let rows = s.requests in
      let b = badge_filter db s filter in
      let badges = s.accreditations in
      (
        _,
        refl,
        rw
            (
              db.count_rows_lem (pending_of t) rows,
              db.count_rows_lem (validated_of t) rows,
              db.count_rows_lem (rejected_of t) rows,
              db.count_rows_lem (incomplete_of t) rows,
              db.count_rows_lem t rows,
            )
            (groups_apart t rows),
        rw (db.count_rows_lem (λ a. b a && was_used db s a) badges, db.count_rows_lem b badges)
            (count_part b (was_used db s) badges),
        db.count_rows_lem (validated_of t) rows
            ∙ count-eq _ _ rows (λ r. ap (λ b. t r && b) (validated-took_slot r.status)),
        rate_tenths-IsRate (db.count_rows (validated_of t) rows) (db.count_rows t rows) (
            rw (db.count_rows_lem (validated_of t) rows, db.count_rows_lem t rows)
              (count_part t (λ r. includes validated_statuses r.status) rows)),
      )
