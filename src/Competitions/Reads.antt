-- ===== src/Competitions/Reads.antt =====
-- The calls of `MatchesFacade` and of the configuration write nothing.
use fsf_acreditation_backend.Base.{◌≡◌, refl, some, arith}
use fsf_acreditation_backend.Store.{
  Prisma, Database, ok, or_throw, throw_if, Reads, Uuid, Instant, Match, match_key,
}
use fsf_acreditation_backend.Competitions.Matches.{get_match, assert_accepting_requests}

pub assert_accepting_requests-Reads :
    (now : Instant) (m : Match) → Reads (assert_accepting_requests now m)
unfolding assert_accepting_requests throw_if
assert_accepting_requests-Reads now m s = ground arith

module _ (db : Prisma) where
  pub get_match-Reads : (id : Uuid) → Reads (get_match db id)
  unfolding get_match or_throw
  get_match-Reads id s = ground arith

  pub get_match_found :
      (id : Uuid) (s : Database) (m : Match)
      → db.find_unique (match_key id) s.matches ≡ some m
      → get_match db id s ≡ (ok m, s)
  unfolding get_match or_throw
  get_match_found id s m found = rw found refl

  pub get_match_only :
      (id : Uuid) (s : Database) (m : Match)
      → get_match db id s ≡ (ok m, s)
      → db.find_unique (match_key id) s.matches ≡ some m
  unfolding get_match or_throw
  get_match_only id s m got = ground arith
