-- ===== src/Tests/People.antt =====
-- Registration, the desk of an editor, and the calls of a requester.
use fsf_acreditation_backend.Base.{
  ◌≡◌, ◌⊎◌, refl, true, some, none, [], ◌∷◌, arith, find, ◌==◌, String, nat_eq, list_eq, string_eq,
  text,
}
use fsf_acreditation_backend.Kernel.Errors.{ErrorCode, ErrorKind, throws}
use fsf_acreditation_backend.Kernel.Permissions.{permissions_for_role}
use fsf_acreditation_backend.Store.{
  in_memory, Database, empty_database, ok, err, User, UserKind, UserStatus, Media, MediaType,
  MediaStatus, RequesterProfile, AccreditationRequest, email_key, media_key, profile_of_user,
}
use fsf_acreditation_backend.Iam.Users.{PasswordHasher, AuthConfig, to_lower_case}
use fsf_acreditation_backend.Iam.Auth.{LoginContext, AuthTokens, AuthenticatedUser}
use fsf_acreditation_backend.Iam.Register.{RegisterRequester, register_requester}
use fsf_acreditation_backend.Iam.Registration.{
  account_of, register_requester_returns, register_requester_unknown_media,
}
use fsf_acreditation_backend.Media.Profiles.{CreateRequesterProfile, new_profile}
use fsf_acreditation_backend.Media.Desk.{AddJournalist, add_journalist}
use fsf_acreditation_backend.Media.Editors.{Added, add_journalist-Added}
use fsf_acreditation_backend.Requests.Queries.{track_request}
use fsf_acreditation_backend.Requests.Tracking.{Owned, Tells, track_request-Tells}
use fsf_acreditation_backend.Requests.Ownership.{DistinctIds}
use fsf_acreditation_backend.Requests.Http.Isolation.{cancel, serve, ForeignStay, serve-ForeignStay}
use fsf_acreditation_backend.Tests.Data.{env, start, draft_request}

abbrev hash : String → String
hash t = t

abbrev config : AuthConfig
config = record {
  max_failed_login_attempts = 5;
  lockout_duration_minutes = 15;
  refresh_ttl = text "7d";
}

abbrev hasher : PasswordHasher
hasher = record { hash = λ p. p; verify = λ stored given. stored == given }

abbrev context : LoginContext
context = record { ip_address = none; user_agent = none }

abbrev station : Media
station = record {
  id = 70;
  name = text "RTS";
  type = MediaType.television;
  country = "Senegal";
  address = none;
  phone = none;
  email = none;
  website = none;
  responsible_name = none;
  status = MediaStatus.validated;
  broadcaster_tier = none;
}

abbrev person : CreateRequesterProfile
person = record {
  media_id = 70;
  first_name = text "Awa";
  last_name = text "Ba";
  birth_date = none;
  nationality = none;
  phone = "1";
  address = none;
  function = "reporter";
  specialty = none;
  press_card_number = none;
  professional_phone = none;
  professional_email = none;
}

abbrev registration : RegisterRequester
registration = record { email = text "Awa@x"; password = "secret"; profile = person }

abbrev stray : RegisterRequester
stray = record registration { profile = record person { media_id = 71 } }

abbrev newsroom : Database
newsroom = record empty_database { media = station ∷ [] }

nobody : in_memory.find_unique (email_key (to_lower_case registration.email)) newsroom.users ≡ none
unfolding in_memory find
nobody = refl

station_found : in_memory.find_unique (media_key 70) newsroom.media ≡ some station
unfolding in_memory find
station_found = ground arith

no_station : in_memory.find_unique (media_key 71) newsroom.media ≡ none
unfolding in_memory find
no_station = ground arith

accepts : hasher.verify (hasher.hash "secret") "secret" ≡ true
unfolding string_eq
accepts = refl

register_requester_returns_example :
    let (result, s') =
      register_requester in_memory hash config hasher env 80 registration context newsroom in
    ((tokens : AuthTokens) × (view : AuthenticatedUser) × (result ≡ ok (tokens, view))
      × (tokens.subject ≡ 50)
      × (view.id ≡ 50)
      × (view.requester_profile_id ≡ some 80))
    × (in_memory.find_unique (profile_of_user 50) s'.profiles ≡ some (new_profile 80 50 person))
register_requester_returns_example =
    register_requester_returns in_memory hash config hasher env 80 registration context newsroom
      station nobody station_found accepts

register_requester_unknown_media_example :
    let (result, s') =
      register_requester in_memory hash config hasher env 80 stray context newsroom in
    (result ≡ err (throws ErrorCode.media_not_found ErrorKind.not_found))
    × (in_memory.find_unique (email_key (to_lower_case registration.email)) s'.users
        ≡ some (account_of in_memory hash config hasher env stray))
    × (s'.profiles ≡ newsroom.profiles)
    × (register_requester in_memory hash config hasher env 80 registration context s'
        ≡ (err (throws ErrorCode.user_email_already_used ErrorKind.conflict), s'))
register_requester_unknown_media_example =
    register_requester_unknown_media in_memory hash config hasher env env 80 stray context newsroom
      registration nobody no_station refl

abbrev editor : RequesterProfile
editor = record (new_profile 81 21 person) { is_editor_in_chief = true }

abbrev desk : Database
desk = record newsroom { profiles = editor ∷ [] }

abbrev journalist : AddJournalist
journalist = record {
  email = text "b@x";
  temporary_password = "temporary";
  profile = record person { media_id = 99 };
}

add_journalist-Added_example :
    Added in_memory desk 21 (add_journalist in_memory hasher env 82 21 journalist desk)
add_journalist-Added_example = add_journalist-Added in_memory hasher env 82 21 journalist desk

abbrev caller : AuthenticatedUser
caller = record {
  id = 22;
  email = text "c@x";
  kind = UserKind.requester;
  role = none;
  requester_profile_id = some 7;
  permissions = permissions_for_role none;
}

abbrev foreign_request : AccreditationRequest
foreign_request = record draft_request { id = 11; requester_id = 8 }

abbrev shared : Database
shared = record empty_database { requests = draft_request ∷ foreign_request ∷ [] }

shared-DistinctIds : DistinctIds in_memory shared
unfolding in_memory find
shared-DistinctIds = (ground arith, (ground arith, tt))

serve-ForeignStay_example :
    ForeignStay in_memory caller shared.requests
      (serve in_memory (cancel 11) caller shared).requests
serve-ForeignStay_example =
    serve-ForeignStay in_memory (cancel 11) caller shared refl shared-DistinctIds tt

abbrev account : User
account = record {
  id = 22;
  email = text "c@x";
  password_hash = "";
  kind = UserKind.requester;
  role = none;
  status = UserStatus.active;
  display_name = none;
  last_login_at = none;
  failed_login_attempts = 0;
  locked_until = none;
}

abbrev tracked : Database
tracked = record start {
  requests = record draft_request { unique_reference = text "FSF-1" } ∷ [];
  profiles = new_profile 7 22 person ∷ [];
  users = account ∷ [];
}

track_request-Tells_example :
    Tells in_memory tracked
      (text "FSF-1")
      (text "C@x")
      (track_request in_memory (text "FSF-1") (text "C@x") tracked)
    × (((r : AccreditationRequest) × Owned in_memory tracked (text "FSF-1") (text "C@x") r)
        ⊎ (track_request in_memory (text "FSF-1") (text "C@x") tracked
            ≡ (err (throws ErrorCode.request_not_found ErrorKind.not_found), tracked)))
track_request-Tells_example = track_request-Tells in_memory (text "FSF-1") (text "C@x") tracked
