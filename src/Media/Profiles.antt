-- ===== src/Media/Profiles.antt =====
-- src/modules/media/media.service.ts: the profiles of requesters.
use fsf_acreditation_backend.Base.{
  Bool, false, Option, List, ◌&&◌, ◌||◌, ◌==◌, nat_eq, list_eq, string_eq, String,
}
use fsf_acreditation_backend.Kernel.Errors.{ErrorCode, ErrorKind, throws}
use fsf_acreditation_backend.Kernel.Pagination.{PageRequest, PageResult}
use fsf_acreditation_backend.Kernel.Listing.{Listing, filter_eq, list_page}
use fsf_acreditation_backend.Store.{
  Prisma, Action, pure, gets, or_throw, modify, ◌>>=◌, ◌>>◌, Uuid, Instant, Text, media_type_eq,
  media_status_eq, RequesterProfile, RequesterStatus, profile_key, profile_of_user,
}
use fsf_acreditation_backend.Media.Service.{filter_contains, get_media}

-- `CreateRequesterProfileDto`
pub record CreateRequesterProfile : Type 0 where
  pub media_id : Uuid
  pub first_name : Text
  pub last_name : Text
  pub birth_date : Option Instant
  pub nationality : Option String
  pub phone : String
  pub address : Option String
  pub function : String
  pub specialty : Option String
  pub press_card_number : Option String
  pub professional_phone : Option String
  pub professional_email : Option String

-- `ListRequesterProfilesDto`
pub record ListRequesterProfiles : Type 0 where
  pub page : PageRequest
  pub media_id : Option Uuid
  pub search : Option Text

abbrev pub new_profile : Uuid → Uuid → CreateRequesterProfile → RequesterProfile
new_profile id user_id dto = record {
  id = id;
  user_id = user_id;
  media_id = dto.media_id;
  first_name = dto.first_name;
  last_name = dto.last_name;
  birth_date = dto.birth_date;
  nationality = dto.nationality;
  phone = dto.phone;
  address = dto.address;
  function = dto.function;
  specialty = dto.specialty;
  press_card_number = dto.press_card_number;
  professional_phone = dto.professional_phone;
  professional_email = dto.professional_email;
  status = RequesterStatus.pending;
  is_editor_in_chief = false;
}

module _ (db : Prisma) where
  -- `createRequesterProfile`
  unfoldable pub create_requester_profile :
      Uuid → Uuid → CreateRequesterProfile → Action RequesterProfile
  unfolding get_media
  create_requester_profile new_id user_id dto = do
    get_media db dto.media_id
    let created = new_profile new_id user_id dto
    modify (λ s. record s { profiles = db.create created s.profiles })
    pure created

  -- `getRequesterProfile`
  unfoldable pub get_requester_profile : Uuid → Action RequesterProfile
  get_requester_profile id = do
    or_throw (← gets (λ s. db.find_unique (profile_key id) s.profiles))
        (throws ErrorCode.requester_not_found ErrorKind.not_found)

  -- `getRequesterProfileByUserId`
  unfoldable pub get_requester_profile_by_user_id : Uuid → Action (Option RequesterProfile)
  get_requester_profile_by_user_id user_id =
      gets (λ s. db.find_unique (profile_of_user user_id) s.profiles)

  -- `listByMediaId`, less the columns of the account and the order.
  unfoldable pub list_by_media_id : Uuid → Action (List RequesterProfile)
  list_by_media_id media_id = gets (λ s. db.find_many (λ p. p.media_id == media_id) s.profiles)

  -- `listRequesterProfiles`
  unfoldable pub list_requester_profiles :
      Listing RequesterProfile → ListRequesterProfiles → Action (PageResult RequesterProfile)
  unfolding list_page
  list_requester_profiles listing query =
      list_page db listing (λ s. s.profiles)
        (λ p.
          filter_eq query.media_id p.media_id
          && (filter_contains query.search p.first_name
              || filter_contains query.search p.last_name))
        query.page

  abbrev change_profile : Uuid → (RequesterProfile → RequesterProfile) → Action (Unit {0})
  change_profile id f =
      modify (λ s. record s { profiles = db.update_rows (profile_key id) f s.profiles })

  -- `updateRequesterProfileStatus`
  unfoldable pub update_requester_profile_status : Uuid → RequesterStatus → Action RequesterProfile
  unfolding get_requester_profile
  update_requester_profile_status id status = do
    p ← get_requester_profile id
    change_profile id (λ x. record x { status = status })
    pure (record p { status = status })

  -- `updateEditorInChiefFlag`
  unfoldable pub update_editor_in_chief_flag : Uuid → Bool → Action RequesterProfile
  unfolding get_requester_profile
  update_editor_in_chief_flag id flag = do
    p ← get_requester_profile id
    change_profile id (λ x. record x { is_editor_in_chief = flag })
    pure (record p { is_editor_in_chief = flag })
