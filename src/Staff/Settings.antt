-- ===== src/Staff/Settings.antt =====
-- The controllers of the staff for competitions, matches, quotas, categories, zones, notification
-- templates and media: each call stands behind the guard of permissions.
use fsf_acreditation_backend.Base.{ℕ, none, some, List, map, ◌==◌, nat_eq, String}
use fsf_acreditation_backend.Competitions.Service.{
  CreateCompetition, UpdateCompetition, create_competition, update_competition,
}
use fsf_acreditation_backend.Competitions.Matches.{
  CreateMatch, UpdateMatch, create_match, update_match,
}
use fsf_acreditation_backend.Quotas.Service.{list_quotas, SetQuota, set_quota}
use fsf_acreditation_backend.Configuration.Service.{
  CreateCategory, UpdateCategory, create_category, update_category, CreateZone, UpdateZone,
  create_zone, update_zone,
}
use fsf_acreditation_backend.Notifications.Templates.{
  EffectiveTemplate, UpsertTemplate, list_effective, upsert_template,
}
use fsf_acreditation_backend.Media.Service.{
  CreateMedia, UpdateMedia, create_media, update_media, update_media_status, ListMedia, list_media,
  get_media,
}
use fsf_acreditation_backend.Kernel.Listing.{Listing}
use fsf_acreditation_backend.Kernel.Pagination.{PageResult}
use fsf_acreditation_backend.Kernel.Permissions.{
  users_manage, competitions_manage, media_manage, media_read, requests_attribute,
}
use fsf_acreditation_backend.Iam.Auth.{AuthenticatedUser}
use fsf_acreditation_backend.Iam.Guard.{require_permission}
use fsf_acreditation_backend.Store.{
  Database, gets, ◌>>=◌, OverflowPolicy, category_key, Prisma, Action, Env, Uuid, Competition,
  Match, MatchCategoryQuota, AccreditationCategory, Zone, NotificationEvent, NotificationTemplate,
  Media, MediaStatus,
}

-- A row of `AdminQuotasController.list`.
pub record QuotaView : Type 0 where
  pub category_id : Uuid
  pub category : String
  pub quota_total : ℕ
  pub consumed : ℕ
  pub overflow_policy : OverflowPolicy
  pub zone_ids : List Uuid

module _ (db : Prisma) where
  -- `AdminCompetitionsController.create`
  unfoldable pub post_competition :
      Env → CreateCompetition → AuthenticatedUser → Action (Competition)
  post_competition env dto user =
      require_permission competitions_manage user (create_competition db env dto)

  -- `AdminCompetitionsController.update`
  unfoldable pub patch_competition :
      Uuid → UpdateCompetition → AuthenticatedUser → Action (Competition)
  patch_competition id dto user =
      require_permission competitions_manage user (update_competition db id dto)

  -- `AdminMatchesController.create`
  unfoldable pub post_match : Env → CreateMatch → AuthenticatedUser → Action (Match)
  post_match env dto user = require_permission competitions_manage user (create_match db env dto)

  -- `AdminMatchesController.update`
  unfoldable pub patch_match : Uuid → UpdateMatch → AuthenticatedUser → Action (Match)
  patch_match id dto user = require_permission competitions_manage user (update_match db id dto)

  -- `AdminQuotasController.set`
  unfoldable pub put_quota : Env → Uuid → SetQuota → AuthenticatedUser → Action (MatchCategoryQuota)
  put_quota env match_id dto user =
      require_permission requests_attribute user (set_quota db env match_id dto)

  -- `AdminCategoriesController.create`
  unfoldable pub post_category :
      Env → CreateCategory → AuthenticatedUser → Action (AccreditationCategory)
  post_category env dto user =
      require_permission competitions_manage user (create_category db env dto)

  -- `AdminCategoriesController.update`
  unfoldable pub patch_category :
      Uuid → UpdateCategory → AuthenticatedUser → Action (AccreditationCategory)
  patch_category id dto user =
      require_permission competitions_manage user (update_category db id dto)

  -- `AdminZonesController.create`
  unfoldable pub post_zone : Env → CreateZone → AuthenticatedUser → Action (Zone)
  post_zone env dto user = require_permission competitions_manage user (create_zone db env dto)

  -- `AdminZonesController.update`
  unfoldable pub patch_zone : Uuid → UpdateZone → AuthenticatedUser → Action (Zone)
  patch_zone id dto user = require_permission competitions_manage user (update_zone db id dto)

  -- `AdminNotificationTemplatesController.list`
  unfoldable pub read_templates : AuthenticatedUser → Action (List EffectiveTemplate)
  read_templates user = require_permission users_manage user (list_effective db)

  -- `AdminNotificationTemplatesController.upsert`
  unfoldable pub put_template :
      NotificationEvent → UpsertTemplate → AuthenticatedUser → Action (NotificationTemplate)
  put_template event dto user = require_permission users_manage user (upsert_template db event dto)

  -- `AdminMediaController.create`
  unfoldable pub post_media : Env → CreateMedia → AuthenticatedUser → Action (Media)
  post_media env dto user = require_permission media_manage user (create_media db env dto)

  -- `AdminMediaController.update`
  unfoldable pub patch_media : Uuid → UpdateMedia → AuthenticatedUser → Action (Media)
  patch_media id dto user = require_permission media_manage user (update_media db id dto)

  -- `AdminMediaController.updateStatus`
  unfoldable pub patch_media_status : Uuid → MediaStatus → AuthenticatedUser → Action (Media)
  patch_media_status id status user =
      require_permission media_manage user (update_media_status db id status)

  -- `MediaController.list`
  unfoldable pub read_media :
      Listing Media → ListMedia → AuthenticatedUser → Action (PageResult Media)
  read_media listing query user = require_permission media_read user (list_media db listing query)

  -- `MediaController.get`
  unfoldable pub read_medium : Uuid → AuthenticatedUser → Action (Media)
  read_medium id user = require_permission media_read user (get_media db id)

  -- The category of a quota, which the foreign key keeps.
  abbrev label_of_category : Database → Uuid → String
  label_of_category s id = elim (db.find_unique (category_key id) s.categories) [
    | none ↦ ""
    | some c ↦ c.label
  ]

  abbrev quota_view : Database → MatchCategoryQuota → QuotaView
  quota_view s q = record {
    category_id = q.category_id;
    category = label_of_category s q.category_id;
    quota_total = q.quota_total;
    consumed = q.consumed;
    overflow_policy = q.overflow_policy;
    zone_ids = map (λ z. z.zone_id) (db.find_many (λ z. z.quota_id == q.id) s.quota_zones);
  }

  -- `AdminQuotasController.list`
  unfoldable pub read_quotas : Uuid → AuthenticatedUser → Action (List QuotaView)
  unfolding list_quotas
  read_quotas match_id user =
      require_permission requests_attribute user
        (do rows ← list_quotas db match_id; gets (λ s. map (quota_view s) rows))
