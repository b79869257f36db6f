-- ===== src/Reporting/Partition.antt =====
-- Which scans the reports list.
use mathlib.Core.Option.{some-ne-none}
use fsf_acreditation_backend.Base.{
  ◌≡◌, ◌≢◌, ◌⊎◌, refl, Bool, true, false, Option, none, some, List, [], ◌∷◌, not, ◌&&◌, ◌==◌,
  nat_eq, arith, select, All, Bool-cases, inl, inr,
}
use fsf_acreditation_backend.Store.{Prisma, Database, Uuid, ScanLog, ScanResult, scan_result_eq}
use fsf_acreditation_backend.Reporting.Dashboard.{DashboardFilter}
use fsf_acreditation_backend.Reporting.Labels.{
  ScanKind, result_fits, has_request_filter, scan_filter, scan_request_filter,
}
use fsf_acreditation_backend.Reporting.Reports.{find_scans}

select-All :
    {A : Type 0} (P : A → Type 0) (p : A → Bool) (xs : List A)
    → ((x : A) → p x ≡ true → P x)
    → All P (select p xs)
unfolding select
select-All P p [] h = tt
select-All P p (x ∷ xs) h = elim (Bool-cases (p x)) [
  | inl e ↦ rw e (h x e, select-All P p xs h)
  | inr e ↦ rw e (select-All P p xs h)
]

select-eq :
    {A : Type 0} (p q : A → Bool) (xs : List A) → ((x : A) → p x ≡ q x) → select p xs ≡ select q xs
unfolding select
select-eq p q [] h = refl
select-eq p q (x ∷ xs) h = ground (arith, h x, select-eq p q xs h)

-- The scan was made for the match of the report, if it is about one.
abbrev pub on_match : Option Uuid → ScanLog → Bool
on_match none x = true
on_match (some match_id) x = x.match_id == match_id

-- The report is restricted by match at most.
abbrev pub IsByMatch : DashboardFilter → Type 0
IsByMatch filter =
    (filter.category_id ≡ none) × (filter.competition_id ≡ none) × (filter.media_id ≡ none)

-- The scan has a badge that was recognised, and is for the match of the report.
abbrev pub Recognised : DashboardFilter → ScanLog → Type 0
Recognised filter x = (x.accreditation_id ≢ none) × (on_match filter.match_id x ≡ true)

module _ (db : Prisma) where
  by_match :
      (filter : DashboardFilter)
      → (IsByMatch filter × (has_request_filter filter ≡ false))
        ⊎ ((¬ IsByMatch filter) × (has_request_filter filter ≡ true))
  by_match filter = elim (Bool-cases (has_request_filter filter)) [
    | inl e ↦ inr ((λ (c, k, m). ground arith), e)
    | inr e ↦ inl ((ground arith, ground arith, ground arith), e)
  ]

  recognised :
      (filter : DashboardFilter) (s : Database) (x : ScanLog)
      → has_request_filter filter ≡ true
      → scan_filter db s filter x ≡ true
      → Recognised filter x
  recognised filter s x e h =
      (λ none_seen. badge x.accreditation_id (ground (arith, e, h)) none_seen, ground (arith, h))
    where
      badge : (o : Option Uuid) → scan_request_filter db s filter o ≡ true → o ≢ none
      badge none h e = ground arith
      badge (some id) h e = some-ne-none id e

  -- A report that is restricted by match at most lists, as entries, the valid scans of that match
  -- or of all, and as anomalies all its other scans. A report that is restricted by competition,
  -- medium or category lists in both only scans of that match, if it names one, of which the badge
  -- was recognised: a refused scan of an unknown token is in neither.
  pub find_scans_lem :
      (filter : DashboardFilter) (s : Database)
      → let entries = find_scans db filter ScanKind.entries s in
        let anomalies = find_scans db filter ScanKind.anomalies s in
        (IsByMatch filter
          × (entries
              ≡ select
                  (λ x. on_match filter.match_id x && x.result == ScanResult.valid)
                  s.scan_logs)
          × (anomalies
              ≡ select
                  (λ x. on_match filter.match_id x && not (x.result == ScanResult.valid))
                  s.scan_logs))
        ⊎ ((¬ IsByMatch filter)
            × All (λ x. Recognised filter x × (x.result ≡ ScanResult.valid)) entries
            × All (λ x. Recognised filter x × (x.result ≢ ScanResult.valid)) anomalies)
  unfolding find_scans
  find_scans_lem filter s =
      let t = scan_filter db s filter in
      let logs = s.scan_logs in
      rw
        (
          db.find_many_lem (λ x. t x && result_fits ScanKind.entries x.result) logs,
          db.find_many_lem (λ x. t x && result_fits ScanKind.anomalies x.result) logs,
        )
        (elim (by_match filter) [
          | inl (plain, e) ↦ inl (
            plain,
            select-eq _ _ logs (λ x. ground arith),
            select-eq _ _ logs (λ x. ground arith),
          )
          | inr (narrow, e) ↦ inr (
            narrow,
            select-All _ _ logs (λ x h. (recognised filter s x e (ground arith), ground arith)),
            select-All _ _ logs
                (λ x h. (recognised filter s x e (ground arith), λ v. ground arith)),
          )
        ])
