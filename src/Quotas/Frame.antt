-- ===== src/Quotas/Frame.antt =====
-- What the calls of the quota service leave alone.
use fsf_acreditation_backend.Base.{◌≡◌, arith}
use fsf_acreditation_backend.Store.{Prisma, or_throw, when, Database, Reads, Uuid}
use fsf_acreditation_backend.Quotas.Service.{get_category, reserve_slot, release_slot}

module _ (db : Prisma) where
  pub get_category-Reads : (id : Uuid) → Reads (get_category db id)
  unfolding get_category or_throw
  get_category-Reads id s = ground arith

  pub reserve_slot-requests :
      (m c : Uuid) (s : Database) → (reserve_slot db m c s).1.requests ≡ s.requests
  unfolding reserve_slot or_throw
  reserve_slot-requests m c s = ground arith

  pub release_slot-requests :
      (m c : Uuid) (s : Database) → (release_slot db m c s).1.requests ≡ s.requests
  unfolding release_slot or_throw when
  release_slot-requests m c s = ground arith
