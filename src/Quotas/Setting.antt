-- ===== src/Quotas/Setting.antt =====
-- What setting a quota keeps of the counters.
use fsf_acreditation_backend.Base.{
  ◌≤◌, ◌≡◌, refl, sym, subst, ◌∙◌, true, nat_eq, Option, none, some, List, [], ◌∷◌, arith, count,
  All-update, All-both, All-map, get_or, Option-cases, inl, inr, count_of_find-none,
}
use fsf_acreditation_backend.Store.{
  Prisma, Database, Env, Outcome, or_throw, Reads, read_rule, then_rule, Uuid, MatchCategoryQuota,
  quota_key, quota_of,
}
use fsf_acreditation_backend.Competitions.Matches.{get_match}
use fsf_acreditation_backend.Competitions.Reads.{get_match-Reads}
use fsf_acreditation_backend.Quotas.Service.{
  SetQuota, get_category, get_zone, get_zones, upsert_quota, set_quota,
}
use fsf_acreditation_backend.Quotas.Frame.{get_category-Reads}
use fsf_acreditation_backend.Quotas.Laws.{Distinct, Within, rows_once}
use fsf_acreditation_backend.Quotas.Invariant.{Sound, Distinct-update}

-- The total that is set is not below the counter of the row that is there.
abbrev pub Covers : SetQuota → Option MatchCategoryQuota → Type 0
Covers dto none = Unit
Covers dto (some q) = q.consumed ≤ dto.quota_total

module _ (db : Prisma) where
  get_zone-Reads : (id : Uuid) → Reads (get_zone db id)
  unfolding get_zone or_throw
  get_zone-Reads id s = ground arith

  get_zones-Reads : (ids : List Uuid) → Reads (get_zones db ids)
  unfolding get_zones
  get_zones-Reads [] s = refl
  get_zones-Reads (z ∷ zs) s =
      read_rule (λ o. o.1 ≡ s) (get_zone db z) _ s (get_zone-Reads z) (λ e h. refl)
        (λ u h. get_zones-Reads zs s)

  change_of : SetQuota → MatchCategoryQuota → MatchCategoryQuota
  change_of dto r = record r {
    quota_total = dto.quota_total;
    overflow_policy = get_or dto.overflow_policy r.overflow_policy;
  }

  changed-Sound :
      (m : Uuid) (dto : SetQuota) (rows : List MatchCategoryQuota) (q : MatchCategoryQuota)
      → Sound db rows
      → db.find_unique (quota_of m dto.category_id) rows ≡ some q
      → q.consumed ≤ dto.quota_total
      → Sound db (db.update_rows (quota_key q.id) (change_of dto) rows)
  unfolding change_of
  changed-Sound m dto rows q (distinct, within) found enough = (
    Distinct-update db (quota_key q.id) (change_of dto) rows (λ x. refl) distinct,
    rw (db.update_rows_lem (quota_key q.id) (change_of dto) rows) (
        All-map _ _ _ (λ r h. h.1)
          (All-update
            (λ r.
              (quota_key q.id r ≡ true → r.consumed ≤ dto.quota_total)
              × (r.consumed ≤ r.quota_total))
            (quota_key q.id) (change_of dto) rows (λ r e h. (h.0, h.0 e))
            (All-both _ _ rows
              (All-map _ _ rows
                (λ r h e. subst (λ x. x.consumed ≤ dto.quota_total) (sym (h e)) enough)
                (rows_once db m dto.category_id rows q distinct found))
              within))),
  )

  created-Distinct :
      (q : MatchCategoryQuota) (rows : List MatchCategoryQuota)
      → db.find_unique (quota_key q.id) rows ≡ none
      → Distinct rows
      → Distinct (db.create q rows)
  unfolding count
  created-Distinct q rows fresh distinct id =
      let absent_key =
        count_of_find-none (quota_key q.id) rows
          (sym (db.find_unique_lem (quota_key q.id) rows) ∙ fresh) in
      rw (db.create_lem q rows) (ground (arith, absent_key, distinct id))

  upsert_quota-Sound :
      (env : Env) (m : Uuid) (dto : SetQuota) (s : Database)
      → db.find_unique (quota_key env.new_id) s.quotas ≡ none
      → Sound db s.quotas
      → Covers dto (db.find_unique (quota_of m dto.category_id) s.quotas)
      → Sound db (upsert_quota db env m dto s).1.quotas
  unfolding change_of upsert_quota count
  upsert_quota-Sound env m dto s fresh sound enough =
      elim (Option-cases (db.find_unique (quota_of m dto.category_id) s.quotas)) [
        | inl e ↦
            rw (upsert_quota, e)
              (
                created-Distinct _ s.quotas fresh sound.0,
                rw (db.create_lem _ s.quotas) (ground arith, sound.1),
              )
        | inr (q, e) ↦
            rw (upsert_quota, e) (changed-Sound m dto s.quotas q sound e (rw e at enough))
      ]

  -- Setting a quota, returned or thrown, keeps identifiers distinct and no counter above its total,
  -- provided that a new row gets a fresh identifier and the total is not set below the counter of
  -- the row that is there.
  pub set_quota-Within :
      (env : Env) (m : Uuid) (dto : SetQuota) (s : Database)
      → db.find_unique (quota_key env.new_id) s.quotas ≡ none
      → Distinct s.quotas
      → Within s.quotas
      → Covers dto (db.find_unique (quota_of m dto.category_id) s.quotas)
      → Distinct (set_quota db env m dto s).1.quotas × Within (set_quota db env m dto s).1.quotas
  unfolding set_quota
  set_quota-Within env m dto s fresh distinct within enough =
      let sound : Sound db s.quotas = (distinct, within) in
      read_rule P (get_match db m) _ s (get_match-Reads db m) (λ e h. sound)
        λ _ h.
          read_rule P (get_category db dto.category_id) _ s (get_category-Reads db dto.category_id)
            (λ e h. sound)
            λ _ h.
              read_rule P (get_zones db dto.zone_ids) _ s (get_zones-Reads dto.zone_ids)
                (λ e h. sound)
                λ _ h.
                  then_rule P (upsert_quota db env m dto) _ s (λ e t h. subst P h kept)
                    (λ q t h. subst P h kept)
    where
      P : {A : Type 0} → Outcome A → Type 0
      P o = Sound db o.1.quotas

      kept : Sound db (upsert_quota db env m dto s).1.quotas
      kept = upsert_quota-Sound env m dto s fresh (distinct, within) enough
