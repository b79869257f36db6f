-- ===== src/Reporting/Search.antt =====
-- search.service.ts: the search for people, media, requests and badges.
use fsf_acreditation_backend.Base.{
  ℕ, Bool, none, some, Option, List, [], ◌∷◌, ◌++◌, map, ◌||◌, ◌==◌, string_eq, String, text,
}
use fsf_acreditation_backend.Store.{
  Prisma, Action, gets, Uuid, Text, RequesterProfile, Media, MediaType, AccreditationRequest,
  RequestStatus, Accreditation, AccreditationStatus,
}
use fsf_acreditation_backend.Media.Service.{filter_contains}
use fsf_acreditation_backend.Accreditations.Service.{Crypto}

-- The answer of the database to a `findMany` with `take` and no order.
pub record SearchEngine : Type 1 where
  pub find_take : {Row : Type 0} → (Row → Bool) → ℕ → List Row → List Row

-- The columns that the search shows.
pub record RequesterHit : Type 0 where
  pub id : Uuid
  pub first_name : Text
  pub last_name : Text
  pub media_id : Uuid

pub record MediaHit : Type 0 where
  pub id : Uuid
  pub name : Text
  pub type : MediaType

pub record RequestHit : Type 0 where
  pub id : Uuid
  pub unique_reference : Text
  pub status : RequestStatus
  pub match_id : Uuid

pub record BadgeHit : Type 0 where
  pub id : Uuid
  pub number : Text
  pub status : AccreditationStatus
  pub request_id : Uuid

-- The answer of `search`.
pub record SearchResult : Type 0 where
  pub requesters : List RequesterHit
  pub media : List MediaHit
  pub requests : List RequestHit
  pub accreditations : List BadgeHit

abbrev requester_hit : RequesterProfile → RequesterHit
requester_hit p = record {
  id = p.id;
  first_name = p.first_name;
  last_name = p.last_name;
  media_id = p.media_id;
}

abbrev media_hit : Media → MediaHit
media_hit m = record { id = m.id; name = m.name; type = m.type }

abbrev request_hit : AccreditationRequest → RequestHit
request_hit r = record {
  id = r.id;
  unique_reference = r.unique_reference;
  status = r.status;
  match_id = r.match_id;
}

abbrev badge_hit : Accreditation → BadgeHit
badge_hit a = record { id = a.id; number = a.number; status = a.status; request_id = a.request_id }

-- `...(accreditationByToken ? [accreditationByToken] : [])`
abbrev in_list : Option Accreditation → List Accreditation
in_list none = []
in_list (some a) = a ∷ []

module _ (db : Prisma) (engine : SearchEngine) where
  -- `search`
  unfoldable pub search : Crypto → String → Action SearchResult
  search crypto term = gets (λ s. record {
    requesters = map requester_hit (
        engine.find_take
          (λ p.
            filter_contains (some (text term)) p.first_name
            || filter_contains (some (text term)) p.last_name)
          10 s.profiles);
    media =
        map media_hit
          (engine.find_take (λ m. filter_contains (some (text term)) m.name) 10 s.media);
    requests = map request_hit (
        engine.find_take (λ r. filter_contains (some (text term)) r.unique_reference) 10
          s.requests);
    accreditations = map badge_hit (
        engine.find_take (λ a. filter_contains (some (text term)) a.number) 10 s.accreditations
        ++ in_list (db.find_unique (λ a. a.qr_token_hash == crypto.hash term) s.accreditations));
  })
