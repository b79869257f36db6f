-- ===== src/Quotas/Invariant.antt =====
-- The counters of the quotas under reservations and releases.
use fsf_acreditation_backend.Base.{
  ◌≤◌, ◌≡◌, refl, ap, Bool, true, ◌==◌, nat_eq, some, List, arith, count-update, All-update,
  All-both, All-map,
}
use fsf_acreditation_backend.Store.{
  Prisma, Database, or_throw_rule, when_last_rule, Outcome, Uuid, MatchCategoryQuota, quota_key,
  quota_of,
}
use fsf_acreditation_backend.Quotas.Service.{
  Reservation, add_one, take_one, has_room, reserve_slot, release_slot,
}
use fsf_acreditation_backend.Quotas.Laws.{Distinct, Within, rows_once}

module _ (db : Prisma) where
  pub Distinct-update :
      (p : MatchCategoryQuota → Bool) (f : MatchCategoryQuota → MatchCategoryQuota)
      (rows : List MatchCategoryQuota)
      → ((x : MatchCategoryQuota) → (f x).id ≡ x.id)
      → Distinct rows
      → Distinct (db.update_rows p f rows)
  Distinct-update p f rows h distinct id =
      rw
        (
          db.update_rows_lem p f rows,
          count-update (quota_key id) p f rows (λ x e. ap (λ i. i == id) (h x)),
        )
        (distinct id)

  -- The two conditions together.
  abbrev pub Sound : List MatchCategoryQuota → Type 0
  Sound rows = Distinct rows × Within rows

  grant-Within :
      (m c : Uuid) (rows : List MatchCategoryQuota) (q : MatchCategoryQuota)
      → Sound rows
      → db.find_unique (quota_of m c) rows ≡ some q
      → Within (db.update_rows (has_room q.id q.quota_total) add_one rows)
  grant-Within m c rows q sound found =
      rw (db.update_rows_lem (has_room q.id q.quota_total) add_one rows) (
        All-map _ _ _ (λ r h. h.1)
          (All-update
            (λ r.
              (quota_key q.id r ≡ true → r.quota_total ≡ q.quota_total)
              × (r.consumed ≤ r.quota_total))
            (has_room q.id q.quota_total) add_one rows (λ r e h. (h.0, ground (arith, h.0)))
            (All-both _ _ rows
              (All-map _ _ rows (λ r h e. ap (λ x. x.quota_total) (h e))
                (rows_once db m c rows q sound.0 found))
              sound.1)))

  take-Within :
      (id : Uuid) (rows : List MatchCategoryQuota)
      → Within rows
      → Within (db.update_rows (quota_key id) take_one rows)
  take-Within id rows within = rw (db.update_rows_lem (quota_key id) take_one rows) (
      All-update (λ r. r.consumed ≤ r.quota_total) (quota_key id) take_one rows
        (λ r e h. ground arith) within)

  -- Neither call makes two rows share an identifier, nor a counter exceed its total.
  pub reserve_slot-Sound :
      (m c : Uuid) (s : Database) → Sound s.quotas → Sound (reserve_slot db m c s).1.quotas
  unfolding reserve_slot
  reserve_slot-Sound m c s sound =
      or_throw_rule P _ _ _ s (λ e. sound)
        λ q found. or_throw_rule P _ _ _ _ (λ e. after q found) (λ fresh e. after q found)
    where
      P : Outcome Reservation → Type 0
      P r = Sound r.1.quotas

      after :
          (q : MatchCategoryQuota)
          → db.find_unique (quota_of m c) s.quotas ≡ some q
          → Sound (db.update_rows (has_room q.id q.quota_total) add_one s.quotas)
      after q found = (
        Distinct-update (has_room q.id q.quota_total) add_one s.quotas (λ x. refl) sound.0,
        grant-Within m c s.quotas q sound found,
      )

  pub release_slot-Sound :
      (m c : Uuid) (s : Database) → Sound s.quotas → Sound (release_slot db m c s).1.quotas
  unfolding release_slot
  release_slot-Sound m c s sound =
      or_throw_rule (λ r. Sound r.1.quotas) _ _ _ s (λ e. sound)
        λ q found.
          when_last_rule (λ r. Sound r.1.quotas) _ _ s
            (λ e. (
              Distinct-update (quota_key q.id) take_one s.quotas (λ x. refl) sound.0,
              take-Within q.id s.quotas sound.1,
            ))
            (λ e. sound)
