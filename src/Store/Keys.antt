-- ===== src/Store/Keys.antt =====
-- The keys by which rows are found, and what a call reads from outside the database.
use fsf_acreditation_backend.Base.{ℕ, Bool, ◌&&◌, ◌==◌, nat_eq, list_eq, String}
use fsf_acreditation_backend.Store.Rows.{
  Uuid, Instant, AccreditationRequest, RequestComplement, MatchCategoryQuota, Match, Accreditation,
  Competition, AccreditationCategory, Zone, Media, RequesterProfile, User, Document, Text,
}

abbrev pub request_key : Uuid → AccreditationRequest → Bool
request_key id r = r.id == id

abbrev pub complement_key : Uuid → RequestComplement → Bool
complement_key id r = r.id == id

abbrev pub quota_key : Uuid → MatchCategoryQuota → Bool
quota_key id r = r.id == id

-- `@@unique([matchId, categoryId])`
abbrev pub quota_of : (match_id category_id : Uuid) → MatchCategoryQuota → Bool
quota_of match_id category_id r = r.match_id == match_id && r.category_id == category_id

abbrev pub match_key : Uuid → Match → Bool
match_key id r = r.id == id

abbrev pub accreditation_key : Uuid → Accreditation → Bool
accreditation_key id r = r.id == id

abbrev pub user_key : Uuid → User → Bool
user_key id r = r.id == id

abbrev pub email_key : Text → User → Bool
email_key email r = r.email == email

abbrev pub document_key : Uuid → Document → Bool
document_key id r = r.id == id

abbrev pub competition_key : Uuid → Competition → Bool
competition_key id r = r.id == id

abbrev pub category_key : Uuid → AccreditationCategory → Bool
category_key id r = r.id == id

abbrev pub zone_key : Uuid → Zone → Bool
zone_key id r = r.id == id

abbrev pub media_key : Uuid → Media → Bool
media_key id r = r.id == id

abbrev pub profile_key : Uuid → RequesterProfile → Bool
profile_key id r = r.id == id

-- `@unique`
abbrev pub profile_of_user : Uuid → RequesterProfile → Bool
profile_of_user user_id p = p.user_id == user_id

-- The clock, the next identifier, the random token and the random numbers of one call. The clock
-- is read once for a call.
pub record Env : Type 0 where
  pub now : Instant
  pub year : ℕ
  pub new_id : Uuid
  pub token : String
  pub draw : ℕ → ℕ
