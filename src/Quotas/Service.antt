-- ===== src/Quotas/Service.antt =====
-- src/modules/quotas/quotas.service.ts.
use fsf_acreditation_backend.Base.{
  ℕ, ◌+◌, ◌-◌, Bool, Option, none, some, List, [], ◌∷◌, not, ◌&&◌, ◌==◌, ltb, leb, nat_eq, get_or,
}
use fsf_acreditation_backend.Kernel.Errors.{ErrorCode, ErrorKind, throws}
use fsf_acreditation_backend.Store.{
  Prisma, Action, pure, gets, or_throw, when, modify, ◌>>=◌, ◌>>◌, Uuid, MatchCategoryQuota,
  MatchCategoryQuotaZone, OverflowPolicy, quota_key, quota_of, category_key, zone_key, Env,
}
use fsf_acreditation_backend.Competitions.Matches.{get_match}

-- `ReservationResult`
pub record Reservation : Type 0 where
  pub reserved : Bool
  pub overflow_policy : OverflowPolicy
  pub quota_total : ℕ
  pub consumed : ℕ

-- `SetQuotaDto`
pub record SetQuota : Type 0 where
  pub category_id : Uuid
  pub quota_total : ℕ
  pub overflow_policy : Option OverflowPolicy
  pub zone_ids : List Uuid

abbrev pub zone_row : Uuid → Uuid → MatchCategoryQuotaZone
zone_row quota_id zone_id = record { quota_id = quota_id; zone_id = zone_id }

abbrev pub add_one : MatchCategoryQuota → MatchCategoryQuota
add_one q = record q { consumed = q.consumed + 1 }

-- Run only where `consumed` is above 0, so the truncated `-` is exact.
abbrev pub take_one : MatchCategoryQuota → MatchCategoryQuota
take_one q = record q { consumed = q.consumed - 1 }

-- The condition of the conditional update: the counter is compared with a total read before.
abbrev pub has_room : Uuid → ℕ → MatchCategoryQuota → Bool
has_room id total q = q.id == id && ltb q.consumed total

module _ (db : Prisma) where
  -- `accreditationConfig.getCategory` and `getZone`
  unfoldable pub get_category : Uuid → Action (Unit {0})
  get_category id = do
    or_throw (← gets (λ s. db.find_unique (category_key id) s.categories))
        (throws ErrorCode.category_not_found ErrorKind.not_found)
    pure tt

  unfoldable pub get_zone : Uuid → Action (Unit {0})
  get_zone id = do
    or_throw (← gets (λ s. db.find_unique (zone_key id) s.zones))
        (throws ErrorCode.zone_not_found ErrorKind.not_found)
    pure tt

  -- The loop over `dto.zoneIds`.
  unfoldable pub get_zones : List Uuid → Action (Unit {0})
  unfolding get_zone
  get_zones [] = pure tt
  get_zones (z ∷ zs) = do get_zone z; get_zones zs

  -- `createMany`
  unfoldable pub create_zones :
      Uuid → List Uuid → List MatchCategoryQuotaZone → List MatchCategoryQuotaZone
  create_zones quota_id [] rows = rows
  create_zones quota_id (z ∷ zs) rows =
      db.create (zone_row quota_id z) (create_zones quota_id zs rows)

  -- The `upsert`: the row that is there is changed, a missing one is created.
  unfoldable pub upsert_quota : Env → Uuid → SetQuota → Action MatchCategoryQuota
  upsert_quota env match_id dto s =
      elim (db.find_unique (quota_of match_id dto.category_id) s.quotas) [
        | some q ↦
            let change = λ (r : MatchCategoryQuota). record r {
              quota_total = dto.quota_total;
              overflow_policy = get_or dto.overflow_policy r.overflow_policy;
            } in
            (modify (λ t. record t { quotas = db.update_rows (quota_key q.id) change t.quotas })
                >> pure (change q))
              s
        | none ↦
            let q : MatchCategoryQuota = record {
              id = env.new_id;
              match_id = match_id;
              category_id = dto.category_id;
              quota_total = dto.quota_total;
              consumed = 0;
              overflow_policy = get_or dto.overflow_policy OverflowPolicy.manual_arbitration;
            } in
            (modify (λ t. record t { quotas = db.create q t.quotas }) >> pure q) s
      ]

  -- `setQuota`
  unfoldable pub set_quota : Env → Uuid → SetQuota → Action MatchCategoryQuota
  unfolding get_category get_zones upsert_quota create_zones
  set_quota env match_id dto = do
    get_match db match_id
    get_category dto.category_id
    get_zones dto.zone_ids
    q ← upsert_quota env match_id dto
    modify (λ s. record s {
      quota_zones =
          create_zones q.id dto.zone_ids
            (db.find_many (λ z. not (z.quota_id == q.id)) s.quota_zones);
    })
    pure q

  -- `getQuotaRow`
  unfoldable pub get_quota_row : (match_id category_id : Uuid) → Action MatchCategoryQuota
  get_quota_row match_id category_id = do
    or_throw (← gets (λ s. db.find_unique (quota_of match_id category_id) s.quotas))
        (throws ErrorCode.quota_not_configured ErrorKind.conflict)

  -- `reserveSlot`, with nothing between its three queries.
  unfoldable pub reserve_slot : (match_id category_id : Uuid) → Action Reservation
  unfolding get_quota_row
  reserve_slot match_id category_id = do
    quota ← get_quota_row match_id category_id
    changed ← gets (λ s. db.count_rows (has_room quota.id quota.quota_total) s.quotas)
    modify (λ s. record s {
      quotas = db.update_rows (has_room quota.id quota.quota_total) add_one s.quotas;
    })
    fresh ← get_quota_row match_id category_id
    pure (record {
      reserved = changed == 1;
      overflow_policy = fresh.overflow_policy;
      quota_total = fresh.quota_total;
      consumed = fresh.consumed;
    })

  -- `releaseSlot`
  unfoldable pub release_slot : (match_id category_id : Uuid) → Action (Unit {0})
  unfolding get_quota_row
  release_slot match_id category_id = do
    quota ← get_quota_row match_id category_id
    when (not (leb quota.consumed 0))
        (modify (λ s. record s { quotas = db.update_rows (quota_key quota.id) take_one s.quotas }))

  -- `listForMatch`, less the category and the zones that it joins.
  unfoldable pub list_quotas : Uuid → Action (List MatchCategoryQuota)
  list_quotas match_id = gets (λ s. db.find_many (λ q. q.match_id == match_id) s.quotas)
