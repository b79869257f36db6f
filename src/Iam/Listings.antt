-- ===== src/Iam/Listings.antt =====
-- The reads of src/modules/iam/users.service.ts.
use fsf_acreditation_backend.Base.{
  ℕ, Bool, true, Option, none, some, map, ◌&&◌, ◌==◌, nat_eq, list_eq, option_eq, bool_eq, String,
}
use fsf_acreditation_backend.Kernel.Errors.{ErrorCode, ErrorKind, throws}
use fsf_acreditation_backend.Kernel.Pagination.{PageRequest, PageResult}
use fsf_acreditation_backend.Kernel.Listing.{Listing, filter_eq, list_page}
use fsf_acreditation_backend.Store.{
  Prisma, Action, pure, gets, or_throw, ◌>>=◌, Uuid, Instant, Text, User, LoginAttempt, UserKind,
  user_kind_eq, StaffRole, staff_role_eq, UserStatus, user_status_eq, user_key,
}
use fsf_acreditation_backend.Iam.Users.{to_lower_case}

-- `SafeUser`: an account without the hash of its password.
pub record SafeUser : Type 0 where
  pub id : Uuid
  pub email : Text
  pub kind : UserKind
  pub role : Option StaffRole
  pub status : UserStatus
  pub display_name : Option String
  pub last_login_at : Option Instant
  pub failed_login_attempts : ℕ
  pub locked_until : Option Instant

-- `SAFE_USER_SELECT`
abbrev pub safe_user : User → SafeUser
safe_user u = record {
  id = u.id;
  email = u.email;
  kind = u.kind;
  role = u.role;
  status = u.status;
  display_name = u.display_name;
  last_login_at = u.last_login_at;
  failed_login_attempts = u.failed_login_attempts;
  locked_until = u.locked_until;
}

-- `ListUsersDto`
pub record ListUsers : Type 0 where
  pub page : PageRequest
  pub kind : Option UserKind
  pub role : Option StaffRole
  pub status : Option UserStatus

-- `ListLoginAttemptsDto`
pub record ListLoginAttempts : Type 0 where
  pub page : PageRequest
  pub email : Option Text
  pub succeeded : Option Bool

-- `query.role ? { role: query.role } : {}`
abbrev pub role_fits : Option StaffRole → Option StaffRole → Bool
role_fits none role = true
role_fits (some wanted) role = role == some wanted

-- `where` of `list`
abbrev pub user_filter : ListUsers → User → Bool
user_filter query u =
    filter_eq query.kind u.kind && (role_fits query.role u.role && filter_eq query.status u.status)

-- `where` of `listLoginAttempts`
abbrev pub attempt_filter : ListLoginAttempts → LoginAttempt → Bool
attempt_filter query a =
    filter_eq (lowered query.email) a.email && filter_eq query.succeeded a.succeeded
  where
    lowered : Option Text → Option Text
    lowered none = none
    lowered (some email) = some (to_lower_case email)

module _ (db : Prisma) where
  -- `getById`
  unfoldable pub get_by_id : Uuid → Action SafeUser
  get_by_id id = do
    user ←
        or_throw (← gets (λ s. db.find_unique (user_key id) s.users))
          (throws ErrorCode.user_not_found ErrorKind.not_found)
    pure (safe_user user)

  -- `list`; the columns of `SAFE_USER_SELECT` of each row on the page.
  unfoldable pub list_users : Listing User → ListUsers → Action (PageResult SafeUser)
  unfolding list_page
  list_users listing query = do
    result ← list_page db listing (λ s. s.users) (user_filter query) query.page
    pure (record {
      items = map safe_user result.items;
      total = result.total;
      page = result.page;
      page_size = result.page_size;
      total_pages = result.total_pages;
    })

  -- `listLoginAttemptsForUser`, which looks at the page of the query only.
  unfoldable pub list_login_attempts_for_user :
      Listing LoginAttempt → Uuid → ListLoginAttempts → Action (PageResult LoginAttempt)
  unfolding list_page
  list_login_attempts_for_user listing user_id query =
      list_page db listing (λ s. s.login_attempts) (λ a. a.user_id == some user_id) query.page

  -- `listLoginAttempts`
  unfoldable pub list_login_attempts :
      Listing LoginAttempt → ListLoginAttempts → Action (PageResult LoginAttempt)
  unfolding list_page
  list_login_attempts listing query =
      list_page db listing (λ s. s.login_attempts) (attempt_filter query) query.page
