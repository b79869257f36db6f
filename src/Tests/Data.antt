-- ===== src/Tests/Data.antt =====
-- A small database, a client and the other parameters of the calls.
use fsf_acreditation_backend.Base.{
  ◌≡◌, true, false, none, some, [], ◌∷◌, arith, find, count, nat_eq,
}
use fsf_acreditation_backend.Store.{
  in_memory, Uuid, User, UserKind, UserStatus, StaffRole, Zone, Database, empty_database,
  AccreditationRequest, MatchCategoryQuota, Match, MatchStatus, RequestStatus, OverflowPolicy, Env,
  Accreditation, AccreditationStatus, request_key, quota_of, match_key,
}
use fsf_acreditation_backend.Accreditations.Service.{Crypto}
use fsf_acreditation_backend.Requests.Decide.{DecideRequestInput, validate}
use fsf_acreditation_backend.Quotas.Laws.{Distinct, Within}

abbrev pub draft_request : AccreditationRequest
draft_request = record {
  id = 6;
  unique_reference = [];
  requester_id = 7;
  match_id = 10;
  category_requested_id = 1;
  status = RequestStatus.draft;
  role_in_event = none;
  needs_desk = false;
  needs_power = false;
  needs_lan_wifi = false;
  car_plate_number = none;
  preferred_zone_ids = [];
  submitted_at = none;
  decision_at = none;
  decision_by_id = none;
  decision_reason = none;
  duplicate_of_id = none;
}

abbrev pub complete_request : AccreditationRequest
complete_request = record draft_request { id = 5; status = RequestStatus.complete }

abbrev pub badged_request : AccreditationRequest
badged_request = record draft_request { id = 8; status = RequestStatus.badge_generated }

abbrev pub rejected_request : AccreditationRequest
rejected_request = record draft_request { id = 9; status = RequestStatus.rejected }

abbrev pub quota : MatchCategoryQuota
quota = record {
  id = 3;
  match_id = 10;
  category_id = 1;
  quota_total = 2;
  consumed = 1;
  overflow_policy = OverflowPolicy.priority;
}

abbrev pub full_quota : MatchCategoryQuota
full_quota = record quota { consumed = 2 }

abbrev pub open_match : Match
open_match = record {
  id = 10;
  competition_id = 1;
  home_team = "A";
  away_team = "B";
  kickoff_at = 2000;
  stadium = "S";
  city = "C";
  status = MatchStatus.open_for_requests;
  requests_open_at = some 100;
  requests_close_at = some 1000;
}

abbrev pub badge : Accreditation
badge = record {
  id = 40;
  request_id = 8;
  number = [];
  status = AccreditationStatus.active;
  qr_token_hash = "secret";
  issued_at = 300;
  expires_at = 5000;
  revoked_at = none;
  revoked_by_id = none;
  revocation_reason = none;
  assigned_booth_number = none;
  assigned_flash_slot = none;
  crypto_signature = record {
    raw_payload = "";
    ecdsa_signature_hex = "";
    public_key_fingerprint = "";
    issued_timestamp = 0;
    expires_timestamp = 5;
    offline_checksum = "";
  };
}

abbrev pub zone : Zone
zone = record { id = 4; code = "T"; label = "Tribune"; description = none; active = true }

abbrev pub agent : Uuid → User
agent id = record {
  id = id;
  email = [];
  password_hash = "";
  kind = UserKind.staff;
  role = some StaffRole.agent_controle;
  status = UserStatus.active;
  display_name = none;
  last_login_at = none;
  failed_login_attempts = 0;
  locked_until = none;
}

-- Two agents, and four requests of one person for a match with one quota of two slots, one of them taken.
abbrev pub start : Database
start = record empty_database {
  requests = draft_request ∷ complete_request ∷ badged_request ∷ rejected_request ∷ [];
  quotas = quota ∷ [];
  matches = open_match ∷ [];
  zones = zone ∷ [];
  users = agent 2 ∷ agent 3 ∷ [];
}

abbrev pub full : Database
full = record start { quotas = full_quota ∷ [] }

abbrev pub crypto : Crypto
crypto = record {
  hash = λ t. t;
  sign = λ p. record {
    raw_payload = "";
    ecdsa_signature_hex = "";
    public_key_fingerprint = "";
    issued_timestamp = p.issued_at;
    expires_timestamp = p.expires_at;
    offline_checksum = "";
  };
}

abbrev pub env : Env
env = record { now = 500; year = 2026; new_id = 50; token = "token"; draw = λ k. k }

abbrev pub decision : DecideRequestInput
decision = record {
  request_id = 5;
  actor_id = 2;
  actor_is_admin = true;
  status = validate;
  reason = none;
  zone_ids = some (4 ∷ []);
  override_quota = false;
  assignment = record { assigned_booth_number = none; assigned_flash_slot = none };
}

pub complete_found : in_memory.find_unique (request_key 5) start.requests ≡ some complete_request
unfolding in_memory find
complete_found = ground arith

pub draft_found : in_memory.find_unique (request_key 6) start.requests ≡ some draft_request
unfolding in_memory find
draft_found = ground arith

pub badged_found : in_memory.find_unique (request_key 8) start.requests ≡ some badged_request
unfolding in_memory find
badged_found = ground arith

pub rejected_found : in_memory.find_unique (request_key 9) start.requests ≡ some rejected_request
unfolding in_memory find
rejected_found = ground arith

pub quota_found : in_memory.find_unique (quota_of 10 1) start.quotas ≡ some quota
unfolding in_memory find
quota_found = ground arith

pub full_found : in_memory.find_unique (quota_of 10 1) full.quotas ≡ some full_quota
unfolding in_memory find
full_found = ground arith

pub match_found : in_memory.find_unique (match_key 10) start.matches ≡ some open_match
unfolding in_memory find
match_found = ground arith

pub start-Distinct : Distinct start.quotas
unfolding count
start-Distinct id = ground arith

pub full-Distinct : Distinct full.quotas
unfolding count
full-Distinct id = ground arith

pub start-Within : Within start.quotas
start-Within = (ground arith, tt)
