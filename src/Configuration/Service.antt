-- ===== src/Configuration/Service.antt =====
-- categories.service.ts and zones.service.ts. The order of the lists is left out.
use fsf_acreditation_backend.Base.{
  Bool, true, false, Option, none, some, List, [], not, ◌&&◌, ◌||◌, ◌==◌, nat_eq, string_eq, String,
  or_else, is_some, get_or,
}
use fsf_acreditation_backend.Kernel.Errors.{ErrorCode, ErrorKind, Failure, throws}
use fsf_acreditation_backend.Store.{
  Prisma, Action, pure, gets, or_throw, throw_if, modify, ◌>>=◌, ◌>>◌, Uuid, Tag, Env,
  AccreditationCategory, Zone, category_key, zone_key,
}

-- `CreateCategoryDto` and `UpdateCategoryDto`
pub record CreateCategory : Type 0 where
  pub code : String
  pub label : String
  pub description : Option String
  pub required_document_types : Option (List Tag)

pub record UpdateCategory : Type 0 where
  pub code : Option String
  pub label : Option String
  pub description : Option String
  pub required_document_types : Option (List Tag)
  pub active : Option Bool

-- `CreateZoneDto` and `UpdateZoneDto`
pub record CreateZone : Type 0 where
  pub code : String
  pub label : String
  pub description : Option String

pub record UpdateZone : Type 0 where
  pub code : Option String
  pub label : Option String
  pub description : Option String
  pub active : Option Bool

-- `@unique`
abbrev pub category_code : String → AccreditationCategory → Bool
category_code code c = c.code == code

abbrev pub zone_code : String → Zone → Bool
zone_code code z = z.code == code

abbrev pub new_category : Uuid → CreateCategory → AccreditationCategory
new_category id dto = record {
  id = id;
  code = dto.code;
  label = dto.label;
  description = dto.description;
  required_document_types = get_or dto.required_document_types [];
  active = true;
}

abbrev pub patch_category : UpdateCategory → AccreditationCategory → AccreditationCategory
patch_category dto c = record c {
  code = get_or dto.code c.code;
  label = get_or dto.label c.label;
  description = or_else dto.description c.description;
  required_document_types = get_or dto.required_document_types c.required_document_types;
  active = get_or dto.active c.active;
}

abbrev pub new_zone : Uuid → CreateZone → Zone
new_zone id dto = record {
  id = id;
  code = dto.code;
  label = dto.label;
  description = dto.description;
  active = true;
}

abbrev pub patch_zone : UpdateZone → Zone → Zone
patch_zone dto z = record z {
  code = get_or dto.code z.code;
  label = get_or dto.label z.label;
  description = or_else dto.description z.description;
  active = get_or dto.active z.active;
}

-- The database refuses a code that another row has.
abbrev takes_category_code : Option String → Uuid → AccreditationCategory → Bool
takes_category_code none id c = false
takes_category_code (some code) id c = c.code == code && not (c.id == id)

abbrev takes_zone_code : Option String → Uuid → Zone → Bool
takes_zone_code none id z = false
takes_zone_code (some code) id z = z.code == code && not (z.id == id)

module _ (db : Prisma) where
  -- `CategoriesService.create`
  unfoldable pub create_category : Env → CreateCategory → Action AccreditationCategory
  create_category env dto = do
    existing ← gets (λ s. db.find_unique (category_code dto.code) s.categories)
    throw_if (is_some existing) (throws ErrorCode.category_code_taken ErrorKind.conflict)
    let created = new_category env.new_id dto
    modify (λ s. record s { categories = db.create created s.categories })
    pure created

  -- `CategoriesService.get`
  unfoldable pub category : Uuid → Action AccreditationCategory
  category id = do
    or_throw (← gets (λ s. db.find_unique (category_key id) s.categories))
        (throws ErrorCode.category_not_found ErrorKind.not_found)

  -- `CategoriesService.update`; nothing is asked of the code before the write.
  unfoldable pub update_category : Uuid → UpdateCategory → Action AccreditationCategory
  unfolding category
  update_category id dto = do
    c ← category id
    throw_if (is_some (← gets (λ s. db.find_first (takes_category_code dto.code id) s.categories)))
        Failure.unique_violation
    modify (λ s. record s {
      categories = db.update_rows (category_key id) (patch_category dto) s.categories;
    })
    pure (patch_category dto c)

  -- `CategoriesService.list`
  unfoldable pub list_categories : (active_only : Bool) → Action (List AccreditationCategory)
  list_categories active_only =
      gets (λ s. db.find_many (λ c. not active_only || c.active) s.categories)

  -- `ZonesService.create`
  unfoldable pub create_zone : Env → CreateZone → Action Zone
  create_zone env dto = do
    existing ← gets (λ s. db.find_unique (zone_code dto.code) s.zones)
    throw_if (is_some existing) (throws ErrorCode.zone_code_taken ErrorKind.conflict)
    let created = new_zone env.new_id dto
    modify (λ s. record s { zones = db.create created s.zones })
    pure created

  -- `ZonesService.get`
  unfoldable pub zone : Uuid → Action Zone
  zone id = do
    or_throw (← gets (λ s. db.find_unique (zone_key id) s.zones))
        (throws ErrorCode.zone_not_found ErrorKind.not_found)

  -- `ZonesService.update`
  unfoldable pub update_zone : Uuid → UpdateZone → Action Zone
  unfolding zone
  update_zone id dto = do
    z ← zone id
    throw_if (is_some (← gets (λ s. db.find_first (takes_zone_code dto.code id) s.zones)))
        Failure.unique_violation
    modify (λ s. record s { zones = db.update_rows (zone_key id) (patch_zone dto) s.zones })
    pure (patch_zone dto z)

  -- `ZonesService.list`
  unfoldable pub list_zones : (active_only : Bool) → Action (List Zone)
  list_zones active_only = gets (λ s. db.find_many (λ z. not active_only || z.active) s.zones)
