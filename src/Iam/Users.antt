-- ===== src/Iam/Users.antt =====
-- src/modules/iam/users.service.ts; its reads are in Iam/Listings.
use fsf_acreditation_backend.Base.{
  ℕ, ◌+◌, ◌*◌, Bool, true, false, Option, none, some, map, not, ◌&&◌, ◌==◌, ltb, leb, nat_eq,
  list_eq, option_eq, String, or_else, is_some, if◌then◌else◌,
}
use fsf_acreditation_backend.Kernel.Errors.{ErrorCode, ErrorKind, Failure, throws}
use fsf_acreditation_backend.Store.{
  Prisma, Action, Database, pure, gets, or_throw, throw_if, when, modify, publish, ◌>>=◌, ◌>>◌,
  Uuid, Instant, Text, User, RefreshToken, UserKind, user_kind_eq, StaffRole, staff_role_eq,
  UserStatus, user_status_eq, user_account_created, user_role_updated, user_status_updated,
  user_password_reset, user_deleted, user_key, email_key, Env,
}

-- `toLowerCase`, on ASCII letters.
abbrev pub lower_char : ℕ → ℕ
lower_char c = if leb b'A' c && leb c b'Z' then c + 32 else c

abbrev pub to_lower_case : Text → Text
to_lower_case = map lower_char

-- argon2: the hash of a password in this call, and the test of a password against a stored hash.
pub record PasswordHasher : Type 0 where
  pub hash : String → String
  pub verify : String → String → Bool

-- `config.auth`
pub record AuthConfig : Type 0 where
  pub max_failed_login_attempts : ℕ
  pub lockout_duration_minutes : ℕ
  pub refresh_ttl : Text

-- `CreateStaffUserDto`
pub record CreateStaffUser : Type 0 where
  pub email : Text
  pub temporary_password : String
  pub role : StaffRole
  pub display_name : Option String

-- `UpdateStaffUserDto`
pub record UpdateStaffUser : Type 0 where
  pub role : Option StaffRole
  pub display_name : Option String

-- The result of `recordFailedLogin`.
pub record Lockout : Type 0 where
  pub locked : Bool
  pub locked_until : Option Instant

abbrev pub new_user : Uuid → Text → String → UserKind → Option StaffRole → Option String → User
new_user id email password_hash kind role display_name = record {
  id = id;
  email = to_lower_case email;
  password_hash = password_hash;
  kind = kind;
  role = role;
  status = UserStatus.active;
  display_name = display_name;
  last_login_at = none;
  failed_login_attempts = 0;
  locked_until = none;
}

abbrev pub patch_user : UpdateStaffUser → User → User
patch_user dto u = record u {
  role = or_else dto.role u.role;
  display_name = or_else dto.display_name u.display_name;
}

-- A reactivation lifts a lock too.
abbrev pub with_user_status : UserStatus → User → User
with_user_status status u =
    if status == UserStatus.active
    then record u { status = status; failed_login_attempts = 0; locked_until = none }
    else record u { status = status }

abbrev pub with_password : String → User → User
with_password password_hash u = record u {
  password_hash = password_hash;
  failed_login_attempts = 0;
  locked_until = none;
}

abbrev pub revoke_at : Instant → RefreshToken → RefreshToken
revoke_at now t = record t { revoked_at = some now }

abbrev pub is_live_of : Uuid → RefreshToken → Bool
is_live_of user_id t = t.user_id == user_id && t.revoked_at == none

abbrev pub logged_in : Instant → User → User
logged_in now u = record u {
  failed_login_attempts = 0;
  locked_until = none;
  last_login_at = some now;
}

abbrev pub one_more_failure : User → User
one_more_failure u = record u { failed_login_attempts = u.failed_login_attempts + 1 }

abbrev pub lock_until : Instant → User → User
lock_until t u = record u { locked_until = some t }

module _ (db : Prisma) where
  unfoldable pub find_by_email : Text → Action (Option User)
  find_by_email email = gets (λ s. db.find_unique (email_key (to_lower_case email)) s.users)

  unfoldable pub find_by_id : Uuid → Action (Option User)
  find_by_id id = gets (λ s. db.find_unique (user_key id) s.users)

  abbrev pub change_user : Uuid → (User → User) → Action (Unit {0})
  change_user id f = modify (λ s. record s { users = db.update_rows (user_key id) f s.users })

  -- `createRequesterAccount`
  unfoldable pub create_requester_account : PasswordHasher → Env → Text → String → Action User
  unfolding find_by_email
  create_requester_account hasher env email password = do
    existing ← find_by_email email
    throw_if (is_some existing) (throws ErrorCode.user_email_already_used ErrorKind.conflict)
    let user = new_user env.new_id email (hasher.hash password) UserKind.requester none none
    modify (λ s. record s { users = db.create user s.users })
    publish (user_account_created user.id user.email user.kind none none)
    pure user

  -- `createStaffUser`
  unfoldable pub create_staff_user : PasswordHasher → Env → CreateStaffUser → Uuid → Action User
  unfolding find_by_email
  create_staff_user hasher env dto actor_id = do
    existing ← find_by_email dto.email
    throw_if (is_some existing) (throws ErrorCode.user_email_already_used ErrorKind.conflict)
    let user =
        new_user env.new_id dto.email (hasher.hash dto.temporary_password) UserKind.staff
          (some dto.role) dto.display_name
    modify (λ s. record s { users = db.create user s.users })
    publish (user_account_created user.id user.email user.kind user.role (some actor_id))
    pure user

  abbrev pub get_user : Uuid → Action User
  get_user id = do or_throw (← find_by_id id) (throws ErrorCode.user_not_found ErrorKind.not_found)

  -- `updateOwnDisplayName`; without a row the client throws.
  unfoldable pub update_own_display_name : Uuid → String → Action User
  update_own_display_name id display_name = do
    user ← or_throw (← gets (λ s. db.find_unique (user_key id) s.users)) Failure.unknown_record
    change_user id (λ u. record u { display_name = some display_name })
    pure (record user { display_name = some display_name })

  -- `if (dto.role && dto.role !== user.role)`
  abbrev pub publish_role : Uuid → Option StaffRole → Option StaffRole → Uuid → Action (Unit {0})
  publish_role id old none actor_id = pure tt
  publish_role id old (some new) actor_id =
      when (not (old == some new)) (publish (user_role_updated id old new actor_id))

  -- `updateStaffUser`
  unfoldable pub update_staff_user : Uuid → UpdateStaffUser → Uuid → Action User
  unfolding find_by_id
  update_staff_user id dto actor_id = do
    user ← get_user id
    throw_if (is_some dto.role && not (user.kind == UserKind.staff))
        (throws ErrorCode.user_role_requires_staff_kind ErrorKind.validation)
    change_user id (patch_user dto)
    publish_role id user.role dto.role actor_id
    pure (patch_user dto user)

  -- `updateStatus`
  unfoldable pub update_status : Uuid → UserStatus → Uuid → Action User
  unfolding find_by_id
  update_status id status actor_id = do
    user ← get_user id
    throw_if (id == actor_id) (throws ErrorCode.user_cannot_modify_self ErrorKind.forbidden)
    change_user id (with_user_status status)
    publish (user_status_updated id user.status status actor_id)
    pure (with_user_status status user)

  -- `resetPassword`
  unfoldable pub reset_password :
      PasswordHasher → Instant → Uuid → String → Uuid → Action (Unit {0})
  unfolding find_by_id
  reset_password hasher now id new_password actor_id = do
    get_user id
    change_user id (with_password (hasher.hash new_password))
    modify (λ s. record s {
      refresh_tokens = db.update_rows (is_live_of id) (revoke_at now) s.refresh_tokens;
    })
    publish (user_password_reset id actor_id)

  -- The deletion of the row of an account: its sessions and its profile go with it, and the rows that
  -- may do without it lose the reference.
  abbrev pub forget_user : Uuid → Database → Database
  forget_user id s = record s {
    users = db.find_many (λ u. not (u.id == id)) s.users;
    refresh_tokens = db.find_many (λ t. not (t.user_id == id)) s.refresh_tokens;
    profiles = db.find_many (λ p. not (p.user_id == id)) s.profiles;
    documents =
        db.update_rows (λ d. d.reviewed_by_id == some id) (λ d. record d { reviewed_by_id = none })
          s.documents;
    accreditations =
        db.update_rows (λ a. a.revoked_by_id == some id) (λ a. record a { revoked_by_id = none })
          s.accreditations;
    login_attempts =
        db.update_rows (λ a. a.user_id == some id) (λ a. record a { user_id = none })
          s.login_attempts;
    notification_logs =
        db.update_rows (λ l. l.recipient_user_id == some id)
          (λ l. record l { recipient_user_id = none }) s.notification_logs;
    audit_logs =
        db.update_rows (λ l. l.actor_id == some id) (λ l. record l { actor_id = none })
          s.audit_logs;
  }

  -- `deleteStaffUser`; `has_history` is the answer of the foreign keys (`P2003`).
  unfoldable pub delete_staff_user : (Database → Bool) → Uuid → Uuid → Action (Unit {0})
  unfolding find_by_id
  delete_staff_user has_history id actor_id = do
    user ← get_user id
    throw_if (id == actor_id) (throws ErrorCode.user_cannot_modify_self ErrorKind.forbidden)
    throw_if (← gets has_history) (throws ErrorCode.user_has_history ErrorKind.conflict)
    modify (forget_user id)
    publish (user_deleted id user.email actor_id)

  -- `recordSuccessfulLogin`
  unfoldable pub record_successful_login : Instant → Uuid → Action (Unit {0})
  record_successful_login now id = change_user id (logged_in now)

  -- `recordFailedLogin`, on the row that the update returns.
  unfoldable pub record_failed_login : AuthConfig → Instant → User → Action Lockout
  record_failed_login config now user s =
      let u = one_more_failure user in
      let until = now + config.lockout_duration_minutes * 60000 in
      let counted = record s {
        users = db.update_rows (user_key user.id) one_more_failure s.users;
      } in
      if ltb u.failed_login_attempts config.max_failed_login_attempts
      then (pure (record { locked = false; locked_until = none })) counted
      else (change_user user.id (lock_until until)
            >> pure (record { locked = true; locked_until = some until }))
          counted
