-- ===== src/Competitions/Matches.antt =====
-- src/modules/competitions/matches.service.ts.
use fsf_acreditation_backend.Base.{
  Bool, false, Option, none, some, List, [], ◌∷◌, ◌++◌, not, ◌&&◌, ◌==◌, ltb, if◌then◌else◌, nat_eq,
  String, string_eq, get_or, or_else, is_some, Eq, option_eq,
}
use fsf_acreditation_backend.Kernel.Errors.{ErrorCode, ErrorKind, throws}
use fsf_acreditation_backend.Kernel.Pagination.{PageRequest, PageResult}
use fsf_acreditation_backend.Kernel.Listing.{Listing, filter_eq, list_page}
use fsf_acreditation_backend.Store.{
  Prisma, Action, pure, gets, or_throw, throw_if, modify, publish, ◌>>=◌, ◌>>◌, Uuid, Instant,
  Match, MatchStatus, match_status_eq, MatchField, match_key, competition_key, match_updated,
  match_requests_closed, Env,
}

-- `now < opensAt`, where the bound may be missing.
abbrev pub is_before : Instant → Option Instant → Bool
is_before now none = false
is_before now (some t) = ltb now t

abbrev pub is_after : Instant → Option Instant → Bool
is_after now none = false
is_after now (some t) = ltb t now

-- `CreateMatchDto`; the columns that no service reads are left out.
pub record CreateMatch : Type 0 where
  pub competition_id : Uuid
  pub home_team : String
  pub away_team : String
  pub kickoff_at : Instant
  pub stadium : String
  pub city : String
  pub status : Option MatchStatus
  pub requests_open_at : Option Instant
  pub requests_close_at : Option Instant

-- `UpdateMatchDto`: a field that is not given is left alone.
pub record UpdateMatch : Type 0 where
  pub kickoff_at : Option Instant
  pub stadium : Option String
  pub city : Option String
  pub status : Option MatchStatus
  pub requests_open_at : Option Instant
  pub requests_close_at : Option Instant

abbrev pub patch_match : UpdateMatch → Match → Match
patch_match dto m = record m {
  kickoff_at = get_or dto.kickoff_at m.kickoff_at;
  stadium = get_or dto.stadium m.stadium;
  city = get_or dto.city m.city;
  status = get_or dto.status m.status;
  requests_open_at = or_else dto.requests_open_at m.requests_open_at;
  requests_close_at = or_else dto.requests_close_at m.requests_close_at;
}

-- A field counts as changed if it is given and its value differs.
abbrev is_changed {ℓ} : {A : Type ℓ} ⦃e : Eq A⦄ → Bool → MatchField → A → A → List MatchField
is_changed given field old new = if given && not (old == new) then field ∷ [] else []

-- `IMPACTFUL_FIELDS.filter(...)`
unfoldable pub changed_fields : UpdateMatch → Match → Match → List MatchField
changed_fields dto old new =
    is_changed (is_some dto.kickoff_at) MatchField.kickoff_at old.kickoff_at new.kickoff_at
    ++ is_changed (is_some dto.stadium) MatchField.stadium old.stadium new.stadium
    ++ is_changed (is_some dto.city) MatchField.city old.city new.city
    ++ is_changed (is_some dto.status) MatchField.status old.status new.status
    ++ is_changed (is_some dto.requests_close_at) MatchField.requests_close_at old.requests_close_at
        new.requests_close_at

abbrev publish_changes : Uuid → List MatchField → Action (Unit {0})
publish_changes id [] = pure tt
publish_changes id (f ∷ fs) = publish (match_updated id (f ∷ fs))

-- `assertAcceptingRequests`
unfoldable pub assert_accepting_requests : Instant → Match → Action (Unit {0})
assert_accepting_requests now m = do
  throw_if (not (m.status == MatchStatus.open_for_requests))
      (throws ErrorCode.match_requests_closed ErrorKind.conflict)
  throw_if (is_before now m.requests_open_at)
      (throws ErrorCode.match_requests_closed ErrorKind.conflict)
  throw_if (is_after now m.requests_close_at)
      (throws ErrorCode.match_requests_closed ErrorKind.conflict)

abbrev pub is_expired : Instant → Match → Bool
is_expired now m = m.status == MatchStatus.open_for_requests && is_after now m.requests_close_at

module _ (db : Prisma) where
  unfoldable pub get_match : Uuid → Action Match
  get_match id = do
    or_throw (← gets (λ s. db.find_unique (match_key id) s.matches))
        (throws ErrorCode.match_not_found ErrorKind.not_found)

  -- `MatchesService.create`
  unfoldable pub create_match : Env → CreateMatch → Action Match
  create_match env dto = do
    or_throw (← gets (λ s. db.find_unique (competition_key dto.competition_id) s.competitions))
        (throws ErrorCode.competition_not_found ErrorKind.not_found)
    let m : Match = record {
      id = env.new_id;
      competition_id = dto.competition_id;
      home_team = dto.home_team;
      away_team = dto.away_team;
      kickoff_at = dto.kickoff_at;
      stadium = dto.stadium;
      city = dto.city;
      status = get_or dto.status MatchStatus.draft;
      requests_open_at = dto.requests_open_at;
      requests_close_at = dto.requests_close_at;
    }
    modify (λ s. record s { matches = db.create m s.matches })
    pure m

  -- `MatchesService.update`
  unfoldable pub update_match : Uuid → UpdateMatch → Action Match
  unfolding get_match changed_fields
  update_match id dto = do
    existing ← get_match id
    modify (λ s. record s { matches = db.update_rows (match_key id) (patch_match dto) s.matches })
    let updated = patch_match dto existing
    publish_changes id (changed_fields dto existing updated)
    pure updated

  -- The loop of `closeExpiredMatches`.
  unfoldable pub close_matches : List Match → Action (Unit {0})
  close_matches [] = pure tt
  close_matches (m ∷ ms) = do
    modify (λ s. record s {
      matches =
          db.update_rows (match_key m.id) (λ r. record r { status = MatchStatus.closed }) s.matches;
    })
    publish (match_requests_closed m.id)
    close_matches ms

  -- `closeExpiredMatches`, run every minute.
  unfoldable pub close_expired_matches : Instant → Action (Unit {0})
  unfolding close_matches
  close_expired_matches now = do
    expired ← gets (λ s. db.find_many (is_expired now) s.matches)
    close_matches expired

  -- `list`
  unfoldable pub list_matches :
      Listing Match → Option Uuid → Option MatchStatus → PageRequest → Action (PageResult Match)
  unfolding list_page
  list_matches listing competition_id status page =
      list_page db listing (λ s. s.matches)
        (λ m. filter_eq competition_id m.competition_id && filter_eq status m.status) page
