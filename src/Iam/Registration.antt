-- ===== src/Iam/Registration.antt =====
-- What the registration of a requester leaves behind, where it succeeds and where it fails.
use fsf_acreditation_backend.Base.{
  ◌≡◌, refl, ◌∙◌, true, none, some, ◌∷◌, nat_eq, list_eq, arith, String,
}
use fsf_acreditation_backend.Kernel.Errors.{ErrorCode, ErrorKind, throws}
use fsf_acreditation_backend.Store.{
  Prisma, Database, ok, err, Uuid, Text, User, UserKind, UserStatus, Media, RequesterProfile,
  user_kind_eq, Env, email_key, media_key, profile_of_user, user_account_created, or_throw-some,
  or_throw-none, throw_if-false, throw_if-true, then_ok, then_err, find_unique-create,
}
use fsf_acreditation_backend.Iam.Users.{
  PasswordHasher, AuthConfig, to_lower_case, new_user, create_requester_account, find_by_email,
  record_successful_login,
}
use fsf_acreditation_backend.Iam.Auth.{
  LoginContext, AuthTokens, AuthenticatedUser, login, login_account, open_session, issue_tokens,
  to_authenticated_user,
}
use fsf_acreditation_backend.Media.Service.{get_media}
use fsf_acreditation_backend.Media.Profiles.{
  CreateRequesterProfile, new_profile, create_requester_profile,
}
use fsf_acreditation_backend.Iam.Register.{RegisterRequester, register_requester}

module _ (db : Prisma) (hash : String → String) (config : AuthConfig)
    (hasher : PasswordHasher) where
  -- The account that a registration opens, and the tables after it.
  abbrev pub account_of : Env → RegisterRequester → User
  account_of env dto =
      new_user env.new_id dto.email (hasher.hash dto.password) UserKind.requester none none

  abbrev pub opened : Env → RegisterRequester → Database → Database
  opened env dto s = record s {
    users = db.create (account_of env dto) s.users;
    events =
        user_account_created env.new_id (to_lower_case dto.email) UserKind.requester none none
        ∷ s.events;
  }

  abbrev pub profiled : Env → Uuid → RegisterRequester → Database → Database
  profiled env profile_id dto s = record (opened env dto s) {
    profiles = db.create (new_profile profile_id env.new_id dto.profile) s.profiles;
  }

  account_run :
      (env : Env) (dto : RegisterRequester) (s : Database)
      → db.find_unique (email_key (to_lower_case dto.email)) s.users ≡ none
      → create_requester_account db hasher env dto.email dto.password s
        ≡ (ok (account_of env dto), opened env dto s)
  unfolding create_requester_account find_by_email
  account_run env dto s fresh = throw_if-false _ _ s (rw fresh refl)

  account_taken :
      (env : Env) (email : Text) (password : String) (s : Database) (u : User)
      → db.find_unique (email_key (to_lower_case email)) s.users ≡ some u
      → create_requester_account db hasher env email password s
        ≡ (err (throws ErrorCode.user_email_already_used ErrorKind.conflict), s)
  unfolding create_requester_account find_by_email
  account_taken env email password s u found = throw_if-true _ _ s (rw found refl)

  register_taken :
      (env : Env) (profile_id : Uuid) (dto : RegisterRequester) (context : LoginContext)
      (s : Database) (u : User)
      → db.find_unique (email_key (to_lower_case dto.email)) s.users ≡ some u
      → register_requester db hash config hasher env profile_id dto context s
        ≡ (err (throws ErrorCode.user_email_already_used ErrorKind.conflict), s)
  unfolding register_requester
  register_taken env profile_id dto context s u found =
      then_err (create_requester_account db hasher env dto.email dto.password) _ s
        (account_taken env dto.email dto.password s u found)

  profile_unknown :
      (id user_id : Uuid) (dto : CreateRequesterProfile) (s : Database)
      → db.find_unique (media_key dto.media_id) s.media ≡ none
      → create_requester_profile db id user_id dto s
        ≡ (err (throws ErrorCode.media_not_found ErrorKind.not_found), s)
  unfolding create_requester_profile get_media
  profile_unknown id user_id dto s missing = or_throw-none _ _ s missing

  register_unknown :
      (env : Env) (profile_id : Uuid) (dto : RegisterRequester) (context : LoginContext)
      (s : Database)
      → db.find_unique (email_key (to_lower_case dto.email)) s.users ≡ none
      → db.find_unique (media_key dto.profile.media_id) s.media ≡ none
      → register_requester db hash config hasher env profile_id dto context s
        ≡ (err (throws ErrorCode.media_not_found ErrorKind.not_found), opened env dto s)
  unfolding register_requester
  register_unknown env profile_id dto context s fresh missing =
      then_ok (create_requester_account db hasher env dto.email dto.password) _ s
        (account_run env dto s fresh)
      ∙ then_err (create_requester_profile db profile_id env.new_id dto.profile) _
          (opened env dto s) (profile_unknown profile_id env.new_id dto.profile _ missing)

  -- A registration with a free address and a medium that does not exist throws that the medium
  -- was not found, but the account stays; every later registration with this address, the medium
  -- corrected or not, is refused because the address is used, and changes nothing.
  pub register_requester_unknown_media :
      (env later : Env) (profile_id : Uuid) (dto : RegisterRequester) (context : LoginContext)
      (s : Database) (again : RegisterRequester)
      → db.find_unique (email_key (to_lower_case dto.email)) s.users ≡ none
      → db.find_unique (media_key dto.profile.media_id) s.media ≡ none
      → again.email ≡ dto.email
      → let (result, s') = register_requester db hash config hasher env profile_id dto context s in
        (result ≡ err (throws ErrorCode.media_not_found ErrorKind.not_found))
        × (db.find_unique (email_key (to_lower_case dto.email)) s'.users
            ≡ some (account_of env dto))
        × (s'.profiles ≡ s.profiles)
        × (register_requester db hash config hasher later profile_id again context s'
            ≡ (err (throws ErrorCode.user_email_already_used ErrorKind.conflict), s'))
  register_requester_unknown_media env later profile_id dto context s again fresh missing same =
      let row =
        find_unique-create db (email_key (to_lower_case dto.email)) (account_of env dto) s.users
          (ground arith) in
      rw (register_unknown env profile_id dto context s fresh missing) (
        refl,
        row,
        refl,
        register_taken later profile_id again context (opened env dto s) (account_of env dto)
            (rw same row),
      )

  profile_run :
      (id user_id : Uuid) (dto : CreateRequesterProfile) (s : Database) (m : Media)
      → db.find_unique (media_key dto.media_id) s.media ≡ some m
      → create_requester_profile db id user_id dto s ≡ (
        ok (new_profile id user_id dto),
        record s { profiles = db.create (new_profile id user_id dto) s.profiles },
      )
  unfolding create_requester_profile get_media
  profile_run id user_id dto s m found = or_throw-some _ _ s found

  login_run :
      (env : Env) (email : Text) (password : String) (context : LoginContext) (s : Database)
      (u : User)
      → db.find_unique (email_key (to_lower_case email)) s.users ≡ some u
      → u.locked_until ≡ none
      → hasher.verify u.password_hash password ≡ true
      → u.status ≡ UserStatus.active
      → login db hash config hasher env email password context s
        ≡ open_session db hash config env email context u s
  unfolding login login_account find_by_email
  login_run env email password context s u found free right active =
      rw found (ground (arith, free, right, active))

  session_run :
      (env : Env) (email : Text) (context : LoginContext) (u : User) (s : Database)
      (p : RequesterProfile)
      → u.kind ≡ UserKind.requester
      → db.find_unique (profile_of_user u.id) s.profiles ≡ some p
      → let (result, s') = open_session db hash config env email context u s in
        ((tokens : AuthTokens) × (view : AuthenticatedUser) × (result ≡ ok (tokens, view))
          × (tokens.subject ≡ u.id)
          × (view.id ≡ u.id)
          × (view.requester_profile_id ≡ some p.id))
        × (s'.profiles ≡ s.profiles)
  unfolding open_session issue_tokens to_authenticated_user record_successful_login user_kind_eq
  session_run env email context u s p kind found =
      ((_, _, refl, refl, refl, rw (found, kind) refl), refl)

  -- A registration with a free address and a medium that exists returns, where the hasher accepts
  -- the hash that it made: the session is that of the new account, which shows the new profile,
  -- and the profile is stored for the account and the medium that was asked for.
  pub register_requester_returns :
      (env : Env) (profile_id : Uuid) (dto : RegisterRequester) (context : LoginContext)
      (s : Database) (m : Media)
      → db.find_unique (email_key (to_lower_case dto.email)) s.users ≡ none
      → db.find_unique (media_key dto.profile.media_id) s.media ≡ some m
      → hasher.verify (hasher.hash dto.password) dto.password ≡ true
      → let (result, s') = register_requester db hash config hasher env profile_id dto context s in
        ((tokens : AuthTokens) × (view : AuthenticatedUser) × (result ≡ ok (tokens, view))
          × (tokens.subject ≡ env.new_id)
          × (view.id ≡ env.new_id)
          × (view.requester_profile_id ≡ some profile_id))
        × (db.find_unique (profile_of_user env.new_id) s'.profiles
            ≡ some (new_profile profile_id env.new_id dto.profile))
  unfolding register_requester
  register_requester_returns env profile_id dto context s m fresh found right =
      let u = account_of env dto in
      let after = profiled env profile_id dto s in
      let row : db.find_unique (email_key (to_lower_case dto.email)) after.users ≡ some u =
        find_unique-create db (email_key (to_lower_case dto.email)) u s.users (ground arith) in
      let kept : db.find_unique (profile_of_user env.new_id) after.profiles
          ≡ some (new_profile profile_id env.new_id dto.profile) =
        find_unique-create db (profile_of_user env.new_id)
          (new_profile profile_id env.new_id dto.profile) s.profiles (ground arith) in
      let went : register_requester db hash config hasher env profile_id dto context s
          ≡ open_session db hash config env dto.email context u after =
        then_ok (create_requester_account db hasher env dto.email dto.password) _ s
          (account_run env dto s fresh)
        ∙ then_ok (create_requester_profile db profile_id env.new_id dto.profile) _
            (opened env dto s) (profile_run profile_id env.new_id dto.profile _ m found)
        ∙ login_run env dto.email dto.password context after u row refl right refl in
      let (session, same) =
        session_run env dto.email context u after (new_profile profile_id env.new_id dto.profile)
          refl kept in
      rw went (session, rw same kept)
