-- ===== src/Iam/Desk.antt =====
-- users.controller.ts: the accounts of the staff, each call behind the guard of permissions. A write
-- that returns an account returns the columns of `SAFE_USER_SELECT`.
use fsf_acreditation_backend.Base.{Bool, String}
use fsf_acreditation_backend.Kernel.Pagination.{PageResult}
use fsf_acreditation_backend.Kernel.Permissions.{users_manage, audit_read}
use fsf_acreditation_backend.Kernel.Listing.{Listing}
use fsf_acreditation_backend.Store.{
  Prisma, Action, Database, pure, ◌>>=◌, Uuid, Instant, Env, User, LoginAttempt, UserStatus,
}
use fsf_acreditation_backend.Iam.Auth.{AuthenticatedUser}
use fsf_acreditation_backend.Iam.Guard.{require_permission}
use fsf_acreditation_backend.Iam.Listings.{
  SafeUser, safe_user, ListUsers, ListLoginAttempts, get_by_id, list_users,
  list_login_attempts_for_user, list_login_attempts,
}
use fsf_acreditation_backend.Iam.Users.{
  PasswordHasher, CreateStaffUser, UpdateStaffUser, create_staff_user, update_staff_user,
  update_status, reset_password, delete_staff_user,
}

abbrev pub safely : Action User → Action SafeUser
safely m = m >>= λ u. pure (safe_user u)

module _ (db : Prisma) where
  -- `create`
  unfoldable pub create :
      PasswordHasher → Env → CreateStaffUser → AuthenticatedUser → Action SafeUser
  create hasher env dto actor =
      require_permission users_manage actor (safely (create_staff_user db hasher env dto actor.id))

  -- `list`
  unfoldable pub list : Listing User → ListUsers → AuthenticatedUser → Action (PageResult SafeUser)
  list listing query actor = require_permission users_manage actor (list_users db listing query)

  -- `listLoginAttempts`
  unfoldable pub list_attempts :
      Listing LoginAttempt
      → ListLoginAttempts
      → AuthenticatedUser
      → Action (PageResult LoginAttempt)
  list_attempts listing query actor =
      require_permission audit_read actor (list_login_attempts db listing query)

  -- `getById`
  unfoldable pub get : Uuid → AuthenticatedUser → Action SafeUser
  get id actor = require_permission users_manage actor (get_by_id db id)

  -- `getLoginHistory`
  unfoldable pub get_login_history :
      Listing LoginAttempt
      → Uuid
      → ListLoginAttempts
      → AuthenticatedUser
      → Action (PageResult LoginAttempt)
  get_login_history listing id query actor =
      require_permission users_manage actor (list_login_attempts_for_user db listing id query)

  -- `update`
  unfoldable pub update : Uuid → UpdateStaffUser → AuthenticatedUser → Action SafeUser
  update id dto actor =
      require_permission users_manage actor (safely (update_staff_user db id dto actor.id))

  -- `resetPassword`
  unfoldable pub reset :
      PasswordHasher → Instant → Uuid → String → AuthenticatedUser → Action (Unit {0})
  reset hasher now id new_password actor =
      require_permission users_manage actor (reset_password db hasher now id new_password actor.id)

  -- `updateStatus`
  unfoldable pub set_status : Uuid → UserStatus → AuthenticatedUser → Action SafeUser
  set_status id status actor =
      require_permission users_manage actor (safely (update_status db id status actor.id))

  -- `remove`
  unfoldable pub remove : (Database → Bool) → Uuid → AuthenticatedUser → Action (Unit {0})
  remove has_history id actor =
      require_permission users_manage actor (delete_staff_user db has_history id actor.id)
