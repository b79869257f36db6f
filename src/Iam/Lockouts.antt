-- ===== src/Iam/Lockouts.antt =====
-- The lock of an account after too many wrong passwords.
use fsf_acreditation_backend.Base.{
  ◌+◌, ◌*◌, ◌≤◌, ◌<◌, ◌≡◌, refl, false, some, nat_eq, list_eq, ltb, arith, String, if◌then◌else◌,
}
use fsf_acreditation_backend.Kernel.Errors.{ErrorCode, ErrorKind, throws}
use fsf_acreditation_backend.Store.{
  Prisma, Database, err, Instant, Text, User, Env, email_key, user_key, find_unique-update_rows,
}
use fsf_acreditation_backend.Iam.Users.{
  PasswordHasher, AuthConfig, to_lower_case, one_more_failure, lock_until, record_failed_login,
  find_by_email,
}
use fsf_acreditation_backend.Iam.Auth.{
  LoginContext, is_locked, refuse_password, login_account, login,
}

-- The account after one more wrong password.
abbrev pub after_failure : AuthConfig → Instant → User → User
after_failure config now u =
    if ltb (u.failed_login_attempts + 1) config.max_failed_login_attempts
    then one_more_failure u
    else lock_until (now + config.lockout_duration_minutes * 60000) (one_more_failure u)

module _ (db : Prisma) (hash : String → String) (config : AuthConfig)
    (hasher : PasswordHasher) where
  -- A wrong password for an account that is not locked is refused as invalid; the failure is
  -- counted, and from the configured number of failures on the account is locked for the
  -- configured time.
  pub login_wrong_password :
      (env : Env) (email : Text) (password : String) (context : LoginContext) (s : Database)
      (u : User)
      → db.find_unique (email_key (to_lower_case email)) s.users ≡ some u
      → is_locked env.now u ≡ false
      → hasher.verify u.password_hash password ≡ false
      → let (result, s') = login db hash config hasher env email password context s in
        (result ≡ err (throws ErrorCode.invalid_credentials ErrorKind.unauthorized))
        × (db.find_unique (email_key (to_lower_case email)) s'.users
            ≡ some (after_failure config env.now u))
  unfolding login login_account refuse_password record_failed_login find_by_email
  login_wrong_password env email password context s u found unlocked wrong =
      let once =
        find_unique-update_rows db (email_key (to_lower_case email)) (user_key u.id)
          one_more_failure s.users (λ x h. refl) in
      let twice =
        find_unique-update_rows db (email_key (to_lower_case email)) (user_key u.id)
          (lock_until (env.now + config.lockout_duration_minutes * 60000))
          (db.update_rows (user_key u.id) one_more_failure s.users) (λ x h. refl) in
      rw (found, unlocked, wrong) (ground (arith, once, twice))

  -- While an account is locked, every login to it is refused as such, the right password
  -- included, and no account changes.
  pub login_locked :
      (env : Env) (email : Text) (password : String) (context : LoginContext) (s : Database)
      (u : User) (until : Instant)
      → db.find_unique (email_key (to_lower_case email)) s.users ≡ some u
      → u.locked_until ≡ some until
      → env.now < until
      → ((login db hash config hasher env email password context s).0
          ≡ err (throws ErrorCode.account_locked ErrorKind.forbidden))
        × ((login db hash config hasher env email password context s).1.users ≡ s.users)
  unfolding login login_account find_by_email
  login_locked env email password context s u until found lock early = rw found (ground arith)

  -- A wrong password that brings an account to the configured number of failures locks it: until
  -- the configured time is over, every later login to it is refused as locked, the right password
  -- included, and no account changes.
  pub login_past_limit :
      (env later : Env) (email : Text) (password attempt : String) (context : LoginContext)
      (s : Database) (u : User)
      → db.find_unique (email_key (to_lower_case email)) s.users ≡ some u
      → is_locked env.now u ≡ false
      → hasher.verify u.password_hash password ≡ false
      → config.max_failed_login_attempts ≤ u.failed_login_attempts + 1
      → later.now < env.now + config.lockout_duration_minutes * 60000
      → let s' = (login db hash config hasher env email password context s).1 in
        let (result, s'') = login db hash config hasher later email attempt context s' in
        (result ≡ err (throws ErrorCode.account_locked ErrorKind.forbidden))
        × (s''.users ≡ s'.users)
  login_past_limit env later email password attempt context s u found unlocked wrong limit early =
      let (refused, row) =
        login_wrong_password env email password context s u found unlocked wrong in
      login_locked later email attempt context
        (login db hash config hasher env email password context s).1
        (after_failure config env.now u) (env.now + config.lockout_duration_minutes * 60000) row
        (ground arith) early
