-- ===== src/Iam/Register.antt =====
-- `registerRequester` of src/modules/iam/auth.controller.ts, which opens an account, creates its
-- profile and logs in.
use fsf_acreditation_backend.Base.{String}
use fsf_acreditation_backend.Store.{Prisma, Action, ◌>>=◌, ◌>>◌, Uuid, Text, Env}
use fsf_acreditation_backend.Iam.Users.{PasswordHasher, AuthConfig, create_requester_account}
use fsf_acreditation_backend.Iam.Auth.{LoginContext, AuthTokens, AuthenticatedUser, login}
use fsf_acreditation_backend.Media.Profiles.{CreateRequesterProfile, create_requester_profile}

-- `RegisterRequesterDto`
pub record RegisterRequester : Type 0 where
  pub email : Text
  pub password : String
  pub profile : CreateRequesterProfile

module _ (db : Prisma) (hash : String → String) (config : AuthConfig)
    (hasher : PasswordHasher) where
  -- `AuthController.registerRequester`
  unfoldable pub register_requester :
      Env
      → (profile_id : Uuid) → RegisterRequester
      → LoginContext
      → Action (AuthTokens × AuthenticatedUser)
  unfolding create_requester_account create_requester_profile login
  register_requester env profile_id dto context = do
    user ← create_requester_account db hasher env dto.email dto.password
    create_requester_profile db profile_id user.id dto.profile
    login db hash config hasher env dto.email dto.password context
