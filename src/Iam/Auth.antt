-- ===== src/Iam/Auth.antt =====
-- src/modules/iam/auth.service.ts, login-attempt.listener.ts and jwt.strategy.ts beside it.
use fsf_acreditation_backend.Base.{
  Bool, true, false, Option, none, some, List, not, ◌&&◌, ◌||◌, ◌==◌, ltb, nat_eq, list_eq,
  option_eq, string_eq, String, is_some, if◌then◌else◌,
}
use fsf_acreditation_backend.Kernel.Errors.{ErrorCode, ErrorKind, Failure, throws}
use fsf_acreditation_backend.Kernel.Permissions.{Permission, permissions_for_role}
use fsf_acreditation_backend.Store.{
  Prisma, Action, pure, throw, gets, or_throw, throw_if, modify, publish, ◌>>=◌, ◌>>◌, Uuid,
  Instant, Text, User, RefreshToken, RequesterProfile, UserKind, user_kind_eq, StaffRole,
  UserStatus, user_status_eq, user_login_succeeded, user_login_failed, Event, Env,
}
use fsf_acreditation_backend.Iam.Duration.{add_duration}
use fsf_acreditation_backend.Iam.Users.{
  PasswordHasher, AuthConfig, revoke_at, find_by_email, find_by_id, record_successful_login,
  record_failed_login,
}

pub record LoginContext : Type 0 where
  pub ip_address : Option String
  pub user_agent : Option String

-- `AuthTokens`; the access token stands for the claims that it signs.
pub record AuthTokens : Type 0 where
  pub subject : Uuid
  pub email : Text
  pub role : Option StaffRole
  pub refresh_token : String

-- `AuthenticatedUser`
pub record AuthenticatedUser : Type 0 where
  pub id : Uuid
  pub email : Text
  pub kind : UserKind
  pub role : Option StaffRole
  pub requester_profile_id : Option Uuid
  pub permissions : List Permission

-- `user?.lockedUntil && user.lockedUntil > new Date()`
abbrev pub is_locked : Instant → User → Bool
is_locked now u = elim u.locked_until [ none ↦ false | some t ↦ ltb now t ]

abbrev pub profile_id : Option RequesterProfile → Option Uuid
profile_id none = none
profile_id (some p) = some p.id

-- A stored token that `refresh` refuses.
abbrev pub is_dead : Instant → RefreshToken → Bool
is_dead now t = is_some t.revoked_at || ltb t.expires_at now

abbrev pub failed : Text → String → LoginContext → Option Uuid → Event
failed email reason context user_id =
    user_login_failed email reason context.ip_address context.user_agent user_id

-- An event, then an exception.
abbrev pub refuse : {A : Type 0} → Event → Failure → Action A
refuse event failure = publish event >> throw failure

module _ (db : Prisma) where
  -- `toAuthenticatedUser`
  unfoldable pub to_authenticated_user : User → Action AuthenticatedUser
  to_authenticated_user user = do
    profile ← gets (λ s. db.find_unique (λ p. p.user_id == user.id) s.profiles)
    pure (record {
      id = user.id;
      email = user.email;
      kind = user.kind;
      role = user.role;
      requester_profile_id = if user.kind == UserKind.requester then profile_id profile else none;
      permissions = permissions_for_role user.role;
    })

  module _ (hash : String → String) (config : AuthConfig) where
    -- `issueTokens`
    unfoldable pub issue_tokens : Env → User → LoginContext → Action AuthTokens
    issue_tokens env user context = do
      let row : RefreshToken = record {
        id = env.new_id;
        user_id = user.id;
        token_hash = hash env.token;
        expires_at = add_duration env.now config.refresh_ttl;
        revoked_at = none;
        created_by_ip = context.ip_address;
        user_agent = context.user_agent;
      }
      modify (λ s. record s { refresh_tokens = db.create row s.refresh_tokens })
      pure (record {
        subject = user.id;
        email = user.email;
        role = user.role;
        refresh_token = env.token;
      })

    -- A wrong password: the failure is counted, then published.
    unfoldable pub refuse_password :
        Instant → Text → LoginContext → User → Action (AuthTokens × AuthenticatedUser)
    refuse_password now email context user = do
      record_failed_login db config now user
      refuse (failed email "INVALID_CREDENTIALS" context (some user.id))
          (throws ErrorCode.invalid_credentials ErrorKind.unauthorized)

    -- The rest of `login`, for an account that is not locked and whose password was right.
    unfoldable pub open_session :
        Env → Text → LoginContext → User → Action (AuthTokens × AuthenticatedUser)
    unfolding issue_tokens
    open_session env email context user = do
      record_successful_login db env.now user.id
      publish
          (user_login_succeeded user.id user.email user.id context.ip_address context.user_agent)
      tokens ← issue_tokens env user context
      view ← to_authenticated_user user
      pure (tokens, view)

    -- The guards of `login`, on the account that the address names.
    unfoldable pub login_account :
        PasswordHasher
        → Env
        → Text
        → String
        → LoginContext
        → Option User
        → Action (AuthTokens × AuthenticatedUser)
    unfolding refuse_password open_session
    login_account hasher env email password context none =
        refuse (failed email "INVALID_CREDENTIALS" context none)
          (throws ErrorCode.invalid_credentials ErrorKind.unauthorized)
    login_account hasher env email password context (some user) =
        if is_locked env.now user
        then refuse (failed email "ACCOUNT_LOCKED" context (some user.id))
            (throws ErrorCode.account_locked ErrorKind.forbidden)
        else if not (hasher.verify user.password_hash password)
        then refuse_password env.now email context user
        else if not (user.status == UserStatus.active)
        then refuse (failed email "ACCOUNT_INACTIVE" context (some user.id))
            (throws ErrorCode.invalid_credentials ErrorKind.forbidden)
        else open_session env email context user

    -- `login`
    unfoldable pub login :
        PasswordHasher
        → Env
        → Text
        → String
        → LoginContext
        → Action (AuthTokens × AuthenticatedUser)
    unfolding login_account
    login hasher env email password context = do
      user ← find_by_email db email
      login_account hasher env email password context user

    -- `refresh`
    unfoldable pub refresh : Env → String → LoginContext → Action AuthTokens
    unfolding issue_tokens
    refresh env refresh_token context = do
      stored ←
          or_throw
            (← gets
              (λ s. db.find_unique (λ t. t.token_hash == hash refresh_token) s.refresh_tokens))
            Failure.unauthorized_exception
      throw_if (is_dead env.now stored) Failure.unauthorized_exception
      user ← or_throw (← find_by_id db stored.user_id) Failure.unauthorized_exception
      throw_if (not (user.status == UserStatus.active)) Failure.unauthorized_exception
      modify (λ s. record s {
        refresh_tokens =
            db.update_rows (λ t. t.id == stored.id) (revoke_at env.now) s.refresh_tokens;
      })
      issue_tokens env user context

    -- `logout`
    unfoldable pub logout : Instant → String → Action (Unit {0})
    logout now refresh_token = modify (λ s. record s {
      refresh_tokens =
          db.update_rows (λ t. t.token_hash == hash refresh_token && t.revoked_at == none)
            (revoke_at now) s.refresh_tokens;
    })

  -- `LoginAttemptListener`: the row that an event adds to the history.
  unfoldable pub record_attempt : Event → Action (Unit {0})
  record_attempt (user_login_succeeded user_id email actor ip agent) = modify (λ s. record s {
    login_attempts =
        db.create
          (record {
            email = email;
            user_id = some user_id;
            ip_address = ip;
            user_agent = agent;
            succeeded = true;
            reason = none;
          })
          s.login_attempts;
  })
  record_attempt (user_login_failed email reason ip agent user_id) = modify (λ s. record s {
    login_attempts =
        db.create
          (record {
            email = email;
            user_id = user_id;
            ip_address = ip;
            user_agent = agent;
            succeeded = false;
            reason = some reason;
          })
          s.login_attempts;
  })
  record_attempt _ = pure tt

  -- `JwtStrategy.validate`: the account is read again for each call.
  unfoldable pub validate_session : Uuid → Action AuthenticatedUser
  unfolding to_authenticated_user
  validate_session subject = do
    user ← or_throw (← find_by_id db subject) Failure.unauthorized_exception
    throw_if (not (user.status == UserStatus.active)) Failure.unauthorized_exception
    to_authenticated_user user
