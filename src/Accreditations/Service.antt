-- ===== src/Accreditations/Service.antt =====
-- src/modules/accreditations/accreditations.service.ts. The rendering of the badge and its
-- storage are left out.
use fsf_acreditation_backend.Base.{
  ℕ, ◌+◌, ◌*◌, ◌/◌, Bool, Option, none, some, List, [], ◌∷◌, not, ◌||◌, ◌==◌, nat_eq, string_eq,
  list_eq, is_some, get_or, true, false, includes, ◌&&◌, String,
}
use fsf_acreditation_backend.Kernel.Errors.{ErrorCode, ErrorKind, Failure, throws}
use fsf_acreditation_backend.Store.{
  Prisma, Action, has_row, zone_key, Zone, pure, gets, or_throw, throw_if, modify, publish, ◌>>=◌,
  ◌>>◌, Uuid, Text, Instant, Accreditation, AccreditationZone, AccreditationStatus,
  accreditation_status_eq, CryptoSignature, accreditation_generated, accreditation_revoked,
  accreditation_key, request_key, Env,
}
use fsf_acreditation_backend.Competitions.Matches.{get_match}
use fsf_acreditation_backend.Accreditations.Numbering.{candidate, badge_prefix, first_free}

-- One day, in milliseconds: `DEFAULT_VALIDITY_DAYS * 86_400_000`.
abbrev pub default_validity : ℕ
default_validity = 1 * 86400000

-- `GenerateAccreditationOptions`
pub record Assignment : Type 0 where
  pub assigned_booth_number : Option ℕ
  pub assigned_flash_slot : Option String

-- `AssignmentInput`: `none` for `undefined`, which leaves the column alone, `some none` for `null`.
pub record AssignmentInput : Type 0 where
  pub assigned_booth_number : Option (Option ℕ)
  pub assigned_flash_slot : Option (Option String)

abbrev pub assign : AssignmentInput → Accreditation → Accreditation
assign input a = record a {
  assigned_booth_number = get_or input.assigned_booth_number a.assigned_booth_number;
  assigned_flash_slot = get_or input.assigned_flash_slot a.assigned_flash_slot;
}

-- The caller's profile, if one is expected, is not that of the request.
abbrev pub is_foreign : Option Uuid → Uuid → Bool
is_foreign none requester_id = false
is_foreign (some expected) requester_id = not (requester_id == expected)

-- The signed payload; the names of the requester and of the media are left out.
pub record BadgePayload : Type 0 where
  pub accreditation_id : Uuid
  pub number : Text
  pub reference : Text
  pub match_id : Uuid
  pub zone_ids : List Uuid
  pub booth_number : Option ℕ
  pub flash_slot : Option String
  pub issued_at : ℕ
  pub expires_at : ℕ

-- What the services take from node:crypto: the keyed hash of a token and the signature of a payload.
pub record Crypto : Type 0 where
  pub hash : String → String
  pub sign : BadgePayload → CryptoSignature

abbrev pub zone_of : Uuid → Uuid → AccreditationZone
zone_of accreditation_id zone_id = record { accreditation_id = accreditation_id; zone_id = zone_id }

-- The unique columns of the table: a second badge of a request, a number or a token hash that
-- another row has.
abbrev pub collides : Accreditation → Accreditation → Bool
collides a r =
    r.request_id == a.request_id || r.number == a.number || r.qr_token_hash == a.qr_token_hash

-- A zone that is named twice.
abbrev pub repeats : List Uuid → Bool
repeats [] = false
repeats (z ∷ zs) = includes zs z || repeats zs

abbrev pub revoked_by : Instant → String → Uuid → Accreditation → Accreditation
revoked_by now reason revoked_by_id a = record a {
  status = AccreditationStatus.revoked;
  revoked_at = some now;
  revoked_by_id = some revoked_by_id;
  revocation_reason = some reason;
}

module _ (db : Prisma) where
  -- `generateBadgeNumber`
  unfoldable pub generate_badge_number : Env → Action Text
  unfolding first_free
  generate_badge_number env = do
    rows ← gets (λ s. s.accreditations)
    or_throw
        (first_free 5 (λ n. is_some (db.find_unique (λ a. a.number == n) rows))
          (candidate badge_prefix env.year) env.draw 0)
        (throws ErrorCode.badge_number_generation_failed ErrorKind.conflict)

  -- The foreign key of the zones of a badge, and its unique pairs: one zone asked for twice, or a
  -- zone that a badge with that identifier has.
  unfoldable pub zones_known : List Uuid → List Zone → Bool
  zones_known [] rows = true
  zones_known (z ∷ zs) rows = has_row db (zone_key z) rows && zones_known zs rows

  unfoldable pub zones_clash : Uuid → List Uuid → List AccreditationZone → Bool
  zones_clash id zone_ids rows =
      repeats zone_ids
      || has_row db (λ x. x.accreditation_id == id && includes zone_ids x.zone_id) rows

  -- `createMany` of the zones
  unfoldable pub create_badge_zones :
      Uuid → List Uuid → List AccreditationZone → List AccreditationZone
  create_badge_zones id [] rows = rows
  create_badge_zones id (z ∷ zs) rows = db.create (zone_of id z) (create_badge_zones id zs rows)

  -- `generateAccreditation`
  unfoldable pub generate_accreditation :
      Crypto → Env → Uuid → List Uuid → Assignment → Action Accreditation
  unfolding generate_badge_number create_badge_zones zones_known zones_clash
  generate_accreditation crypto env request_id zone_ids options = do
    request ←
        or_throw (← gets (λ s. db.find_unique (request_key request_id) s.requests))
          (throws ErrorCode.request_not_found ErrorKind.not_found)
    -- the `include` of the match, which the foreign key keeps
    match ← get_match db request.match_id
    number ← generate_badge_number env
    let expires_at : Instant = match.kickoff_at + default_validity
    let created : Accreditation = record {
      id = env.new_id;
      request_id = request_id;
      number = number;
      status = AccreditationStatus.active;
      qr_token_hash = crypto.hash env.token;
      issued_at = env.now;
      expires_at = expires_at;
      revoked_at = none;
      revoked_by_id = none;
      revocation_reason = none;
      assigned_booth_number = options.assigned_booth_number;
      assigned_flash_slot = options.assigned_flash_slot;
      crypto_signature = crypto.sign (record {
        accreditation_id = request_id;
        number = number;
        reference = request.unique_reference;
        match_id = request.match_id;
        zone_ids = zone_ids;
        booth_number = options.assigned_booth_number;
        flash_slot = options.assigned_flash_slot;
        issued_at = env.now / 1000;
        expires_at = expires_at / 1000;
      });
    }
    throw_if (← gets (λ s. is_some (db.find_first (collides created) s.accreditations)))
        Failure.unique_violation
    -- the transaction writes the badge with its zones, or nothing
    throw_if (not (← gets (λ s. zones_known zone_ids s.zones))) Failure.foreign_key_violation
    throw_if (← gets (λ s. zones_clash created.id zone_ids s.accreditation_zones))
        Failure.unique_violation
    modify (λ s. record s {
      accreditations = db.create created s.accreditations;
      accreditation_zones = create_badge_zones created.id zone_ids s.accreditation_zones;
    })
    publish (accreditation_generated created.id request_id request.requester_id)
    pure created

  -- `getForRequest`
  unfoldable pub get_for_request : Uuid → Option Uuid → Action Accreditation
  get_for_request request_id expected_requester_id = do
    a ←
        or_throw (← gets (λ s. db.find_unique (λ a. a.request_id == request_id) s.accreditations))
          (throws ErrorCode.accreditation_not_found ErrorKind.not_found)
    -- the joined request, which the foreign key keeps
    request ←
        or_throw (← gets (λ s. db.find_unique (request_key a.request_id) s.requests))
          (throws ErrorCode.accreditation_not_found ErrorKind.not_found)
    throw_if (is_foreign expected_requester_id request.requester_id)
        (throws ErrorCode.forbidden_scope ErrorKind.forbidden)
    pure a

  -- `updateAssignments`
  unfoldable pub update_assignments : Uuid → AssignmentInput → Action Accreditation
  update_assignments id input = do
    a ←
        or_throw (← gets (λ s. db.find_unique (accreditation_key id) s.accreditations))
          (throws ErrorCode.accreditation_not_found ErrorKind.not_found)
    modify (λ s. record s {
      accreditations = db.update_rows (accreditation_key id) (assign input) s.accreditations;
    })
    pure (assign input a)

  -- `findByRawToken`
  unfoldable pub find_by_raw_token : Crypto → String → Action (Option Accreditation)
  find_by_raw_token crypto raw_token =
      gets (λ s. db.find_unique (λ a. a.qr_token_hash == crypto.hash raw_token) s.accreditations)

  -- `revoke`
  unfoldable pub revoke : Instant → Uuid → String → Uuid → Action Accreditation
  revoke now id reason revoked_by_id = do
    a ←
        or_throw (← gets (λ s. db.find_unique (accreditation_key id) s.accreditations))
          (throws ErrorCode.accreditation_not_found ErrorKind.not_found)
    throw_if (a.status == AccreditationStatus.revoked)
        (throws ErrorCode.accreditation_already_revoked ErrorKind.conflict)
    modify (λ s. record s {
      accreditations =
          db.update_rows (accreditation_key id) (revoked_by now reason revoked_by_id)
            s.accreditations;
    })
    publish (accreditation_revoked id a.request_id reason)
    pure (revoked_by now reason revoked_by_id a)
