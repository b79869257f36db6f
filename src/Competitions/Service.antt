-- ===== src/Competitions/Service.antt =====
-- src/modules/competitions/competitions.service.ts.
use fsf_acreditation_backend.Base.{Option, nat_eq, String, or_else, get_or}
use fsf_acreditation_backend.Kernel.Errors.{ErrorCode, ErrorKind, throws}
use fsf_acreditation_backend.Kernel.Pagination.{PageRequest, PageResult}
use fsf_acreditation_backend.Kernel.Listing.{Listing, filter_eq, list_page}
use fsf_acreditation_backend.Store.{
  Prisma, Action, pure, gets, or_throw, modify, ◌>>=◌, ◌>>◌, Uuid, Instant, Env, Competition,
  CompetitionStatus, competition_status_eq, competition_key,
}

-- `CreateCompetitionDto`, with its dates read.
pub record CreateCompetition : Type 0 where
  pub name : String
  pub season : String
  pub organizer : Option String
  pub start_date : Option Instant
  pub end_date : Option Instant
  pub description : Option String

-- `UpdateCompetitionDto`
pub record UpdateCompetition : Type 0 where
  pub name : Option String
  pub season : Option String
  pub organizer : Option String
  pub start_date : Option Instant
  pub end_date : Option Instant
  pub description : Option String
  pub status : Option CompetitionStatus

abbrev pub new_competition : Uuid → CreateCompetition → Competition
new_competition id dto = record {
  id = id;
  name = dto.name;
  season = dto.season;
  organizer = dto.organizer;
  start_date = dto.start_date;
  end_date = dto.end_date;
  status = CompetitionStatus.draft;
  description = dto.description;
}

abbrev pub patch_competition : UpdateCompetition → Competition → Competition
patch_competition dto c = record c {
  name = get_or dto.name c.name;
  season = get_or dto.season c.season;
  organizer = or_else dto.organizer c.organizer;
  start_date = or_else dto.start_date c.start_date;
  end_date = or_else dto.end_date c.end_date;
  description = or_else dto.description c.description;
  status = get_or dto.status c.status;
}

module _ (db : Prisma) where
  -- `create`
  unfoldable pub create_competition : Env → CreateCompetition → Action Competition
  create_competition env dto = do
    let created = new_competition env.new_id dto
    modify (λ s. record s { competitions = db.create created s.competitions })
    pure created

  -- `get`
  unfoldable pub get_competition : Uuid → Action Competition
  get_competition id = do
    or_throw (← gets (λ s. db.find_unique (competition_key id) s.competitions))
        (throws ErrorCode.competition_not_found ErrorKind.not_found)

  -- `update`
  unfoldable pub update_competition : Uuid → UpdateCompetition → Action Competition
  unfolding get_competition
  update_competition id dto = do
    c ← get_competition id
    modify (λ s. record s {
      competitions = db.update_rows (competition_key id) (patch_competition dto) s.competitions;
    })
    pure (patch_competition dto c)

  -- `list`
  unfoldable pub list_competitions :
      Listing Competition → Option CompetitionStatus → PageRequest → Action (PageResult Competition)
  unfolding list_page
  list_competitions listing status page =
      list_page db listing (λ s. s.competitions) (λ c. filter_eq status c.status) page
