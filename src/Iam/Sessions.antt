-- ===== src/Iam/Sessions.antt =====
-- The refresh tokens of a session: rotation, and the end of sessions on a new password.
use fsf_acreditation_backend.Base.{
  ◌≤◌, ◌≡◌, ◌≢◌, refl, [], ◌∙◌, Bool, true, false, none, some, List, ◌∷◌, ◌==◌, nat_eq, string_eq,
  option_eq, arith, String, All, update, select, not,
}
use fsf_acreditation_backend.Kernel.Errors.{Failure}
use fsf_acreditation_backend.Store.{
  Prisma, Database, ok, err, or_throw, or_throw-some, throw_if-false, throw_if-true, Uuid, Instant,
  User, UserStatus, user_status_eq, RefreshToken, Env, user_key, find_unique-update_rows,
  find_unique-create_other,
}
use fsf_acreditation_backend.Iam.Duration.{add_duration}
use fsf_acreditation_backend.Iam.Users.{
  PasswordHasher, AuthConfig, revoke_at, is_live_of, reset_password, find_by_id,
}
use fsf_acreditation_backend.Iam.Auth.{LoginContext, AuthTokens, is_dead, issue_tokens, refresh}

-- A token that is no longer usable at any time.
abbrev pub IsRevoked : RefreshToken → Type 0
IsRevoked t = t.revoked_at ≢ none

module _ (db : Prisma) (hash : String → String) (config : AuthConfig) where
  abbrev pub token_row : String → RefreshToken → Bool
  token_row token t = t.token_hash == hash token

  -- The row of the token that a refresh gives out, and the tables after it.
  abbrev new_token : Env → LoginContext → User → RefreshToken
  new_token env context u = record {
    id = env.new_id;
    user_id = u.id;
    token_hash = hash env.token;
    expires_at = add_duration env.now config.refresh_ttl;
    revoked_at = none;
    created_by_ip = context.ip_address;
    user_agent = context.user_agent;
  }

  abbrev rotated : Env → LoginContext → User → RefreshToken → Database → Database
  rotated env context u t s = record s {
    refresh_tokens =
        db.create (new_token env context u)
          (db.update_rows (λ x. x.id == t.id) (revoke_at env.now) s.refresh_tokens);
  }

  abbrev tokens_of : Env → User → AuthTokens
  tokens_of env u = record {
    subject = u.id;
    email = u.email;
    role = u.role;
    refresh_token = env.token;
  }

  refresh_run :
      (env : Env) (token : String) (context : LoginContext) (s : Database) (t : RefreshToken)
      (u : User)
      → db.find_unique (token_row token) s.refresh_tokens ≡ some t
      → is_dead env.now t ≡ false
      → db.find_unique (user_key t.user_id) s.users ≡ some u
      → u.status ≡ UserStatus.active
      → refresh db hash config env token context s
        ≡ (ok (tokens_of env u), rotated env context u t s)
  unfolding refresh issue_tokens find_by_id
  refresh_run env token context s t u found live found_u active =
      or_throw-some _ _ s found
      ∙ throw_if-false _ _ s live
      ∙ or_throw-some _ _ s found_u
      ∙ throw_if-false _ _ s (ground (arith, active))

  refresh_dead :
      (env : Env) (token : String) (context : LoginContext) (s : Database) (t : RefreshToken)
      → db.find_unique (token_row token) s.refresh_tokens ≡ some t
      → is_dead env.now t ≡ true
      → refresh db hash config env token context s ≡ (err Failure.unauthorized_exception, s)
  unfolding refresh
  refresh_dead env token context s t found dead =
      or_throw-some _ _ s found ∙ throw_if-true _ _ s dead

  -- A refresh with a stored token that is neither revoked nor past its end, of an active account,
  -- returns a new token; a second refresh with the old one, at any time, is refused and changes
  -- nothing, if the new token has another hash.
  pub refresh_twice :
      (env later : Env) (token : String) (context : LoginContext) (s : Database) (t : RefreshToken)
      (u : User)
      → db.find_unique (token_row token) s.refresh_tokens ≡ some t
      → t.revoked_at ≡ none
      → env.now ≤ t.expires_at
      → db.find_unique (user_key t.user_id) s.users ≡ some u
      → u.status ≡ UserStatus.active
      → hash env.token ≢ hash token
      → let (result, s') = refresh db hash config env token context s in
        ((tokens : AuthTokens) × (result ≡ ok tokens) × (tokens.refresh_token ≡ env.token))
        × (refresh db hash config later token context s' ≡ (err Failure.unauthorized_exception, s'))
  refresh_twice env later token context s t u found live in_time found_u active other =
      let went = refresh_run env token context s t u found (ground arith) found_u active in
      let row : db.find_unique (token_row token) (rotated env context u t s).refresh_tokens
          ≡ some (revoke_at env.now t) =
        find_unique-create_other db (token_row token) (new_token env context u) _ (ground arith)
        ∙ find_unique-update_rows db (token_row token) (λ x. x.id == t.id) (revoke_at env.now)
            s.refresh_tokens (λ x h. refl)
        ∙ rw found (ground arith) in
      rw went (
        (tokens_of env u, refl, refl),
        refresh_dead later token context (rotated env context u t s) (revoke_at env.now t) row refl,
      )

  -- A new password ends every session of the account: every refresh token of that account is revoked
  -- afterwards, and the tokens of other accounts are the same rows.
  pub reset_password-All :
      (hasher : PasswordHasher) (now : Instant) (id : Uuid) (password : String) (actor : Uuid)
      (s : Database) (u : User)
      → db.find_unique (user_key id) s.users ≡ some u
      → ((reset_password db hasher now id password actor s).0 ≡ ok tt)
        × All
            (λ t. t.user_id ≡ id → t.revoked_at ≢ none)
            (reset_password db hasher now id password actor s).1.refresh_tokens
        × (select
              (λ t. not (t.user_id == id))
              (reset_password db hasher now id password actor s).1.refresh_tokens
            ≡ select (λ t. not (t.user_id == id)) s.refresh_tokens)
  unfolding reset_password find_by_id or_throw update select
  reset_password-All hasher now id password actor s u found = rw found (
      rw (db.update_rows_lem (is_live_of id) (revoke_at now) s.refresh_tokens)
        (refl, dead s.refresh_tokens, apart s.refresh_tokens))
    where
      dead :
          (ts : List RefreshToken)
          → All
              (λ t. t.user_id ≡ id → t.revoked_at ≢ none)
              (update (is_live_of id) (revoke_at now) ts)
      dead [] = tt
      dead (t ∷ ts) = (λ e r. ground arith, dead ts)

      apart :
          (ts : List RefreshToken)
          → select (λ t. not (t.user_id == id)) (update (is_live_of id) (revoke_at now) ts)
            ≡ select (λ t. not (t.user_id == id)) ts
      apart [] = refl
      apart (t ∷ ts) = ground (arith, apart ts)
