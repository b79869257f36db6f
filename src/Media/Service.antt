-- ===== src/Media/Service.antt =====
-- src/modules/media/media.service.ts: the media; the profiles are in Media/Profiles.
use fsf_acreditation_backend.Base.{
  Bool, true, false, Option, none, some, [], ◌∷◌, ◌&&◌, ◌||◌, ◌==◌, nat_eq, list_eq, string_eq,
  String, or_else, is_some, get_or,
}
use fsf_acreditation_backend.Kernel.Errors.{ErrorCode, ErrorKind, throws}
use fsf_acreditation_backend.Kernel.Pagination.{PageRequest, PageResult}
use fsf_acreditation_backend.Kernel.Listing.{Listing, filter_eq, list_page}
use fsf_acreditation_backend.Store.{
  Prisma, Action, pure, gets, or_throw, throw_if, modify, ◌>>=◌, ◌>>◌, Uuid, Text, Env, Media,
  MediaType, media_type_eq, MediaStatus, media_status_eq, BroadcasterTier, media_key,
}
use fsf_acreditation_backend.Iam.Users.{to_lower_case}

-- `CreateMediaDto`
pub record CreateMedia : Type 0 where
  pub name : Text
  pub type : MediaType
  pub country : String
  pub address : Option String
  pub phone : Option String
  pub email : Option String
  pub website : Option String
  pub responsible_name : Option String
  pub broadcaster_tier : Option BroadcasterTier

-- `UpdateMediaDto`
pub record UpdateMedia : Type 0 where
  pub name : Option Text
  pub type : Option MediaType
  pub country : Option String
  pub address : Option String
  pub phone : Option String
  pub email : Option String
  pub website : Option String
  pub responsible_name : Option String
  pub broadcaster_tier : Option BroadcasterTier

-- `ListMediaDto`
pub record ListMedia : Type 0 where
  pub page : PageRequest
  pub status : Option MediaStatus
  pub type : Option MediaType
  pub search : Option Text

abbrev pub starts_with : Text → Text → Bool
starts_with xs [] = true
starts_with [] (c ∷ cs) = false
starts_with (x ∷ xs) (c ∷ cs) = x == c && starts_with xs cs

unfoldable pub contains : Text → Text → Bool
contains [] t = starts_with [] t
contains (x ∷ xs) t = starts_with (x ∷ xs) t || contains xs t

-- `{ contains: search, mode: 'insensitive' }`
abbrev pub filter_contains : Option Text → Text → Bool
filter_contains none name = true
filter_contains (some t) name = contains (to_lower_case name) (to_lower_case t)

-- `{ name: { equals, mode: 'insensitive' }, country }`
abbrev pub same_media : Text → String → Media → Bool
same_media name country m = to_lower_case m.name == to_lower_case name && m.country == country

abbrev pub new_media : Uuid → CreateMedia → Media
new_media id dto = record {
  id = id;
  name = dto.name;
  type = dto.type;
  country = dto.country;
  address = dto.address;
  phone = dto.phone;
  email = dto.email;
  website = dto.website;
  responsible_name = dto.responsible_name;
  status = MediaStatus.pending;
  broadcaster_tier = dto.broadcaster_tier;
}

abbrev pub patch_media : UpdateMedia → Media → Media
patch_media dto m = record m {
  name = get_or dto.name m.name;
  type = get_or dto.type m.type;
  country = get_or dto.country m.country;
  address = or_else dto.address m.address;
  phone = or_else dto.phone m.phone;
  email = or_else dto.email m.email;
  website = or_else dto.website m.website;
  responsible_name = or_else dto.responsible_name m.responsible_name;
  broadcaster_tier = or_else dto.broadcaster_tier m.broadcaster_tier;
}

module _ (db : Prisma) where
  -- `createMedia`
  unfoldable pub create_media : Env → CreateMedia → Action Media
  create_media env dto = do
    duplicate ← gets (λ s. db.find_first (same_media dto.name dto.country) s.media)
    throw_if (is_some duplicate) (throws ErrorCode.media_not_found ErrorKind.conflict)
    let created = new_media env.new_id dto
    modify (λ s. record s { media = db.create created s.media })
    pure created

  -- `getMedia`
  unfoldable pub get_media : Uuid → Action Media
  get_media id = do
    or_throw (← gets (λ s. db.find_unique (media_key id) s.media))
        (throws ErrorCode.media_not_found ErrorKind.not_found)

  abbrev change_media : Uuid → (Media → Media) → Action (Unit {0})
  change_media id f = modify (λ s. record s { media = db.update_rows (media_key id) f s.media })

  -- `updateMedia`
  unfoldable pub update_media : Uuid → UpdateMedia → Action Media
  unfolding get_media
  update_media id dto = do
    m ← get_media id
    change_media id (patch_media dto)
    pure (patch_media dto m)

  -- `updateMediaStatus`
  unfoldable pub update_media_status : Uuid → MediaStatus → Action Media
  unfolding get_media
  update_media_status id status = do
    m ← get_media id
    change_media id (λ x. record x { status = status })
    pure (record m { status = status })

  -- `listMedia`
  unfoldable pub list_media : Listing Media → ListMedia → Action (PageResult Media)
  unfolding list_page
  list_media listing query =
      list_page db listing (λ s. s.media)
        (λ m.
          filter_eq query.status m.status
          && (filter_eq query.type m.type && filter_contains query.search m.name))
        query.page
