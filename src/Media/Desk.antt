-- ===== src/Media/Desk.antt =====
-- src/modules/media-desk/media-desk.service.ts.
use fsf_acreditation_backend.Base.{ℕ, Bool, Option, List, ◌==◌, nat_eq, String, not, map, includes}
use fsf_acreditation_backend.Kernel.Errors.{Failure}
use fsf_acreditation_backend.Store.{
  Prisma, Action, pure, gets, or_throw, throw_if, ◌>>=◌, ◌>>◌, Uuid, Text, Env, Media,
  RequesterProfile, RequestStatus, request_status_eq, AccreditationRequest, media_key,
}
use fsf_acreditation_backend.Iam.Users.{PasswordHasher, create_requester_account}
use fsf_acreditation_backend.Media.Profiles.{
  CreateRequesterProfile, create_requester_profile, get_requester_profile_by_user_id,
  list_by_media_id,
}

-- `AddJournalistDto`: the columns of a profile, with the account to open. The medium that the
-- caller may have written into it is replaced.
pub record AddJournalist : Type 0 where
  pub email : Text
  pub temporary_password : String
  pub profile : CreateRequesterProfile

pub record Roster : Type 0 where
  pub media : Option Media
  pub journalists : List RequesterProfile
  pub requests_by_status : RequestStatus → ℕ

-- `requester: { mediaId }`
abbrev pub requester_of : List RequesterProfile → AccreditationRequest → Bool
requester_of profiles r = includes (map (λ p. p.id) profiles) r.requester_id

module _ (db : Prisma) where
  -- `assertEditor`
  unfoldable pub assert_editor : Uuid → Action RequesterProfile
  unfolding get_requester_profile_by_user_id
  assert_editor user_id = do
    profile ← or_throw (← get_requester_profile_by_user_id db user_id) Failure.forbidden_exception
    throw_if (not profile.is_editor_in_chief) Failure.forbidden_exception
    pure profile

  -- `getRoster`; a status without requests counts 0.
  unfoldable pub get_roster : Uuid → Action Roster
  unfolding assert_editor list_by_media_id
  get_roster user_id = do
    editor ← assert_editor user_id
    media ← gets (λ s. db.find_unique (media_key editor.media_id) s.media)
    colleagues ← list_by_media_id db editor.media_id
    counts ← gets (λ s status.
        db.count_rows (λ r. r.status == status) (db.find_many (requester_of colleagues) s.requests))
    pure (record { media = media; journalists = colleagues; requests_by_status = counts })

  -- `addJournalist`
  unfoldable pub add_journalist :
      PasswordHasher → Env → (profile_id : Uuid) → Uuid → AddJournalist → Action RequesterProfile
  unfolding assert_editor create_requester_account create_requester_profile
  add_journalist hasher env profile_id user_id dto = do
    editor ← assert_editor user_id
    user ← create_requester_account db hasher env dto.email dto.temporary_password
    create_requester_profile db profile_id user.id
        (record dto.profile { media_id = editor.media_id })
