-- ===== src/Quotas/Laws.antt =====
-- What the two calls on the counter of a quota promise.
use fsf_acreditation_backend.Base.{
  ◌+◌, ◌≤◌, ◌≡◌, refl, sym, ap, ◌∙◌, Bool, true, nat_eq, ltb, some, none, List, arith, dec_le,
  if◌then◌else◌, count, All, unique_row, count_of_unique,
}
use fsf_acreditation_backend.Kernel.Errors.{ErrorCode, ErrorKind, throws}
use fsf_acreditation_backend.Store.{
  Prisma, Database, ok, err, or_throw, when, Uuid, MatchCategoryQuota, quota_key, quota_of,
  find_unique-update_rows,
}
use fsf_acreditation_backend.Quotas.Service.{
  Reservation, add_one, take_one, has_room, reserve_slot, release_slot,
}

-- The identifier is a primary key: one row at most has it.
abbrev pub Distinct : List MatchCategoryQuota → Type 0
Distinct rows = (id : Uuid) → count (quota_key id) rows ≤ 1

-- No counter exceeds its total.
abbrev pub Within : List MatchCategoryQuota → Type 0
Within rows = All (λ q. q.consumed ≤ q.quota_total) rows

-- The row after a try to reserve a slot.
abbrev pub reserved_row : MatchCategoryQuota → MatchCategoryQuota
reserved_row q = if ltb q.consumed q.quota_total then record q { consumed = q.consumed + 1 } else q

abbrev pub reservation_of : Bool → MatchCategoryQuota → Reservation
reservation_of reserved q = record {
  reserved = reserved;
  overflow_policy = q.overflow_policy;
  quota_total = q.quota_total;
  consumed = q.consumed;
}

module _ (db : Prisma) where
  pub rows_once :
      (m c : Uuid) (rows : List MatchCategoryQuota) (q : MatchCategoryQuota)
      → Distinct rows
      → db.find_unique (quota_of m c) rows ≡ some q
      → All (λ r. quota_key q.id r ≡ true → r ≡ q) rows
  rows_once m c rows q distinct found =
      unique_row (quota_of m c) (quota_key q.id) rows q
        (sym (db.find_unique_lem (quota_of m c) rows) ∙ found) (ground arith) (distinct q.id)

  room_count :
      (m c : Uuid) (rows : List MatchCategoryQuota) (q : MatchCategoryQuota)
      → Distinct rows
      → db.find_unique (quota_of m c) rows ≡ some q
      → db.count_rows (has_room q.id q.quota_total) rows
        ≡ (if ltb q.consumed q.quota_total then 1 else 0)
  room_count m c rows q distinct found =
      db.count_rows_lem (has_room q.id q.quota_total) rows
      ∙ count_of_unique (quota_of m c) (quota_key q.id) (λ r. ltb r.consumed q.quota_total) rows q
          (sym (db.find_unique_lem (quota_of m c) rows) ∙ found) (ground arith) (distinct q.id)

  room_row :
      (m c : Uuid) (rows : List MatchCategoryQuota) (q : MatchCategoryQuota)
      → db.find_unique (quota_of m c) rows ≡ some q
      → db.find_unique (quota_of m c) (db.update_rows (has_room q.id q.quota_total) add_one rows)
        ≡ some (reserved_row q)
  room_row m c rows q found =
      rw
        (
          find_unique-update_rows db (quota_of m c) (has_room q.id q.quota_total) add_one rows
              (λ x h. refl),
          found,
        )
        (ground arith)

  -- Where the quota of a category for a match is configured and identifiers are unique, a try to
  -- reserve a slot returns: it is granted exactly if the counter is below the total, the counter
  -- then goes up by one and otherwise stays, the answer shows the row as it is afterwards, and
  -- nothing but the quotas has changed.
  pub reserve_slot_lem :
      (m c : Uuid) (s : Database) (q : MatchCategoryQuota)
      → Distinct s.quotas
      → db.find_unique (quota_of m c) s.quotas ≡ some q
      → (rows : List MatchCategoryQuota) × (reserve_slot db m c s ≡ (
        ok (reservation_of (ltb q.consumed q.quota_total) (reserved_row q)),
        record s { quotas = rows },
      ))
        × (db.find_unique (quota_of m c) rows ≡ some (reserved_row q))
  unfolding reserve_slot or_throw
  reserve_slot_lem m c s q distinct found =
      let row = room_row m c s.quotas q found in
      let room = room_count m c s.quotas q distinct found in
      (
        db.update_rows (has_room q.id q.quota_total) add_one s.quotas,
        rw (found, row, room) (ground arith),
        row,
      )

  -- Where the quota is configured, a release returns and lowers its counter by one, down to 0, and
  -- nothing but the quotas has changed.
  pub release_slot_lem :
      (m c : Uuid) (s : Database) (q : MatchCategoryQuota)
      → db.find_unique (quota_of m c) s.quotas ≡ some q
      → (rows : List MatchCategoryQuota) × (release_slot db m c s
          ≡ (ok tt, record s { quotas = rows }))
        × (db.find_unique (quota_of m c) rows ≡ some (take_one q))
  unfolding release_slot or_throw when
  release_slot_lem m c s q found = elim (dec_le q.consumed 0) [
    | yes h ↦ (s.quotas, rw found (ground arith), found ∙ ap some (ground arith))
    | no h ↦ (
      db.update_rows (quota_key q.id) take_one s.quotas,
      rw found (ground arith),
      find_unique-update_rows db (quota_of m c) (quota_key q.id) take_one s.quotas (λ x e. refl)
          ∙ rw found (ground arith),
    )
  ]

  pub release_slot_missing :
      (m c : Uuid) (s : Database)
      → db.find_unique (quota_of m c) s.quotas ≡ none
      → release_slot db m c s ≡ (err (throws ErrorCode.quota_not_configured ErrorKind.conflict), s)
  unfolding release_slot or_throw
  release_slot_missing m c s missing = rw missing refl
