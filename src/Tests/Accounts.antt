-- ===== src/Tests/Accounts.antt =====
-- Accounts, sessions and documents.
use mathlib.Core.Bool.{true≢false}
use fsf_acreditation_backend.Kernel.Permissions.{
  users_manage, requests_validate, accreditations_revoke, scan_perform,
}
use fsf_acreditation_backend.Kernel.Duties.{Lets, can_activate_duties}
use fsf_acreditation_backend.Base.{
  not, select, ◌+◌, ◌≢◌, ◌⊎◌, nat_eq, All, option_eq, ◌↔◌, ◌⊎◌, ◌≡◌, ◌≢◌, ap, refl, true, false,
  some, none, [], ◌∷◌, arith, find, select, count, ◌==◌, String, All, nat_eq, string_eq, option_eq,
  includes,
}
use fsf_acreditation_backend.Kernel.Errors.{ErrorCode, ErrorKind, Failure, throws}
use fsf_acreditation_backend.Store.{
  StaffRole, in_memory, Database, empty_database, ok, err, User, UserKind, UserStatus, RefreshToken,
  Env, Document, DocumentStatus, email_key, user_key, document_key,
}
use fsf_acreditation_backend.Iam.Users.{PasswordHasher, AuthConfig, to_lower_case, reset_password}
use fsf_acreditation_backend.Iam.Auth.{LoginContext, AuthTokens, login, refresh}
use fsf_acreditation_backend.Iam.Lockouts.{login_past_limit}
use fsf_acreditation_backend.Iam.Sessions.{token_row, refresh_twice, reset_password-All}
use fsf_acreditation_backend.Documents.Service.{UploadFile, StorageConfig, is_current, upload}
use fsf_acreditation_backend.Documents.Versions.{IsVersion, upload-is_current}
use fsf_acreditation_backend.Tests.Data.{env}

abbrev user : User
user = record {
  id = 20;
  email = b'a' ∷ [];
  password_hash = "right";
  kind = UserKind.staff;
  role = none;
  status = UserStatus.active;
  display_name = none;
  last_login_at = none;
  failed_login_attempts = 4;
  locked_until = none;
}

abbrev session : RefreshToken
session = record {
  id = 30;
  user_id = 20;
  token_hash = "old";
  expires_at = 9000;
  revoked_at = none;
  created_by_ip = none;
  user_agent = none;
}

abbrev accounts : Database
accounts = record empty_database { users = user ∷ []; refresh_tokens = session ∷ [] }

abbrev hash : String → String
hash t = t

abbrev config : AuthConfig
config = record {
  max_failed_login_attempts = 5;
  lockout_duration_minutes = 15;
  refresh_ttl = b'7' ∷ b'd' ∷ [];
}

abbrev hasher : PasswordHasher
hasher = record { hash = λ p. p; verify = λ stored given. stored == given }

abbrev context : LoginContext
context = record { ip_address = none; user_agent = none }

abbrev later : Env
later = record env { now = 700 }

user_by_email :
    in_memory.find_unique (email_key (to_lower_case (b'A' ∷ []))) accounts.users ≡ some user
unfolding in_memory find
user_by_email = ground arith

wrong : hasher.verify user.password_hash "guess" ≡ false
unfolding string_eq
wrong = refl

login_past_limit_example :
    let s' = (login in_memory hash config hasher env (b'A' ∷ []) "guess" context accounts).1 in
    let (result, s'') = login in_memory hash config hasher later (b'A' ∷ []) "right" context s' in
    (result ≡ err (throws ErrorCode.account_locked ErrorKind.forbidden)) × (s''.users ≡ s'.users)
login_past_limit_example =
    login_past_limit in_memory hash config hasher env later (b'A' ∷ []) "guess" "right" context
      accounts user user_by_email refl wrong (ground arith) (ground arith)

session_found :
    in_memory.find_unique (token_row in_memory hash config "old") accounts.refresh_tokens
    ≡ some session
unfolding in_memory find
session_found = ground arith

user_found : in_memory.find_unique (user_key 20) accounts.users ≡ some user
unfolding in_memory find
user_found = ground arith

other_hash : hash env.token ≢ hash "old"
unfolding string_eq
other_hash e = true≢false (ap (λ t. "token" == t) e)

refresh_twice_example :
    let (result, s') = refresh in_memory hash config env "old" context accounts in
    ((tokens : AuthTokens) × (result ≡ ok tokens) × (tokens.refresh_token ≡ "token"))
    × (refresh in_memory hash config later "old" context s'
        ≡ (err Failure.unauthorized_exception, s'))
refresh_twice_example =
    refresh_twice in_memory hash config env later "old" context accounts session user session_found
      refl (ground arith) user_found refl other_hash

reset_password-All_example :
    ((reset_password in_memory hasher 700 20 "new" 2 accounts).0 ≡ ok tt)
    × All
        (λ t. t.user_id ≡ 20 → t.revoked_at ≢ none)
        (reset_password in_memory hasher 700 20 "new" 2 accounts).1.refresh_tokens
    × (select
          (λ t. not (t.user_id == 20))
          (reset_password in_memory hasher 700 20 "new" 2 accounts).1.refresh_tokens
        ≡ select (λ t. not (t.user_id == 20)) accounts.refresh_tokens)
reset_password-All_example =
    reset_password-All in_memory hash config hasher 700 20 "new" 2 accounts user user_found

abbrev storage : StorageConfig
storage = record { max_file_size_bytes = 1000; allowed_mime_types = "application/pdf" ∷ [] }

abbrev file : UploadFile
file = record { mimetype = "application/pdf"; size = 10; storage_key = "k"; checksum = "c" }

pdf_accepted : includes storage.allowed_mime_types file.mimetype ≡ true
pdf_accepted = ground arith

abbrev filed : Document
filed = record {
  id = 61;
  subject_type = 1;
  subject_id = 7;
  document_type = 2;
  version = 3;
  status = DocumentStatus.validated;
  storage_key = "a";
  mime_type = "application/pdf";
  size_bytes = 5;
  checksum = "a";
  rejection_reason = none;
  uploaded_by_id = 2;
  reviewed_by_id = none;
  reviewed_at = none;
}

-- A version of the document, one before it and a document of another type.
abbrev shelf : Database
shelf = record accounts {
  documents =
      filed
      ∷ record filed { id = 62; version = 2; status = DocumentStatus.superseded }
      ∷ record filed { id = 63; document_type = 5; version = 9 }
      ∷ [];
}

upload-is_current_example :
    let (result, s') = upload in_memory storage 60 1 7 2 file 2 shelf in
    ((d : Document) × (result ≡ ok d)
      × (d.status ≡ DocumentStatus.pending)
      × ((All (λ e. ¬ IsVersion 1 7 2 e) shelf.documents × (d.version ≡ 1))
          ⊎ ((¬ All (λ e. ¬ IsVersion 1 7 2 e) shelf.documents)
              × All (λ e. IsVersion 1 7 2 e → d.version ≡ e.version + 1) shelf.documents))
      × IsVersion 1 7 2 d
      × (in_memory.find_unique (document_key 60) s'.documents ≡ some d))
    × (count (is_current 1 7 2) s'.documents ≡ 1)
unfolding count
upload-is_current_example =
    upload-is_current in_memory storage 60 1 7 2 file 2 shelf (ground arith) pdf_accepted
      (ground arith)

can_activate_duties_example :
    (Lets (some StaffRole.superviseur) users_manage
      ↔ (some StaffRole.superviseur ≡ some StaffRole.admin))
    × (Lets (some StaffRole.superviseur) requests_validate ↔ (
        (some StaffRole.superviseur ≡ some StaffRole.admin)
        ⊎ (some StaffRole.superviseur ≡ some StaffRole.responsable_accreditation)
        ⊎ (some StaffRole.superviseur ≡ some StaffRole.commission_validation)))
    × (Lets (some StaffRole.superviseur) accreditations_revoke ↔ (
        (some StaffRole.superviseur ≡ some StaffRole.admin)
        ⊎ (some StaffRole.superviseur ≡ some StaffRole.responsable_accreditation)))
    × (Lets (some StaffRole.superviseur) scan_perform ↔ (
        (some StaffRole.superviseur ≡ some StaffRole.admin)
        ⊎ (some StaffRole.superviseur ≡ some StaffRole.agent_controle)))
can_activate_duties_example = can_activate_duties (some StaffRole.superviseur)
