-- ===== src/Store/Rows.antt =====
-- The rows of the tables of prisma/schema.prisma, with the columns that the services read or write.
use fsf_acreditation_backend.Base.{ℕ, Bool, Option, List, String}
use fsf_acreditation_backend.Store.Enums.{
  RequestStatus, OverflowPolicy, MatchStatus, AccreditationStatus, ScanResult, ScanSource,
  RoleInEvent, UserKind, StaffRole, UserStatus, DocumentStatus, Tag, MediaType, MediaStatus,
  BroadcasterTier, RequesterStatus, CompetitionStatus, NotificationEvent, NotificationChannel,
  NotificationStatus,
}

-- Identifiers are only compared.
abbrev pub Uuid : Type 0
Uuid = ℕ

-- Milliseconds since the epoch.
abbrev pub Instant : Type 0
Instant = ℕ

-- A reference that the program builds, as character codes.
abbrev pub Text : Type 0
Text = List ℕ

pub record AccreditationRequest : Type 0 where
  pub id : Uuid
  pub unique_reference : Text
  pub requester_id : Uuid
  pub match_id : Uuid
  pub category_requested_id : Uuid
  pub status : RequestStatus
  pub role_in_event : Option RoleInEvent
  pub needs_desk : Bool
  pub needs_power : Bool
  pub needs_lan_wifi : Bool
  pub car_plate_number : Option String
  pub preferred_zone_ids : List Uuid
  pub submitted_at : Option Instant
  pub decision_at : Option Instant
  pub decision_by_id : Option Uuid
  pub decision_reason : Option String
  pub duplicate_of_id : Option Uuid

pub record RequestDecision : Type 0 where
  pub request_id : Uuid
  pub actor_id : Uuid
  pub from_status : RequestStatus
  pub to_status : RequestStatus
  pub reason : Option String

pub record RequestComplement : Type 0 where
  pub id : Uuid
  pub request_id : Uuid
  pub requested_by_id : Uuid
  pub missing_item : String
  pub comment : Option String
  pub due_date : Option Instant
  pub resolved_at : Option Instant

pub record MatchCategoryQuota : Type 0 where
  pub id : Uuid
  pub match_id : Uuid
  pub category_id : Uuid
  pub quota_total : ℕ
  pub consumed : ℕ
  pub overflow_policy : OverflowPolicy

pub record MatchCategoryQuotaZone : Type 0 where
  pub quota_id : Uuid
  pub zone_id : Uuid

pub record Match : Type 0 where
  pub id : Uuid
  pub competition_id : Uuid
  pub home_team : String
  pub away_team : String
  pub kickoff_at : Instant
  pub stadium : String
  pub city : String
  pub status : MatchStatus
  pub requests_open_at : Option Instant
  pub requests_close_at : Option Instant

-- `cryptoSignature`, a JSON column.
pub record CryptoSignature : Type 0 where
  pub raw_payload : String
  pub ecdsa_signature_hex : String
  pub public_key_fingerprint : String
  pub issued_timestamp : ℕ
  pub expires_timestamp : ℕ
  pub offline_checksum : String

pub record Accreditation : Type 0 where
  pub id : Uuid
  pub request_id : Uuid
  pub number : Text
  pub status : AccreditationStatus
  pub qr_token_hash : String
  pub issued_at : Instant
  pub expires_at : Instant
  pub revoked_at : Option Instant
  pub revoked_by_id : Option Uuid
  pub revocation_reason : Option String
  pub assigned_booth_number : Option ℕ
  pub assigned_flash_slot : Option String
  pub crypto_signature : CryptoSignature

pub record AccreditationZone : Type 0 where
  pub accreditation_id : Uuid
  pub zone_id : Uuid

pub record ScanLog : Type 0 where
  pub accreditation_id : Option Uuid
  pub scanned_token_hash : String
  pub match_id : Uuid
  pub zone_id : Option Uuid
  pub gate : Option String
  pub device_id : String
  pub scanned_by_id : Uuid
  pub result : ScanResult
  pub reason : Option String
  pub source : ScanSource
  pub scanned_at : Instant
  pub synced_at : Option Instant

pub record Competition : Type 0 where
  pub id : Uuid
  pub name : String
  pub season : String
  pub organizer : Option String
  pub start_date : Option Instant
  pub end_date : Option Instant
  pub status : CompetitionStatus
  pub description : Option String

pub record AccreditationCategory : Type 0 where
  pub id : Uuid
  pub code : String
  pub label : String
  pub description : Option String
  pub required_document_types : List Tag
  pub active : Bool

pub record Zone : Type 0 where
  pub id : Uuid
  pub code : String
  pub label : String
  pub description : Option String
  pub active : Bool

pub record User : Type 0 where
  pub id : Uuid
  pub email : Text
  pub password_hash : String
  pub kind : UserKind
  pub role : Option StaffRole
  pub status : UserStatus
  pub display_name : Option String
  pub last_login_at : Option Instant
  pub failed_login_attempts : ℕ
  pub locked_until : Option Instant

pub record RefreshToken : Type 0 where
  pub id : Uuid
  pub user_id : Uuid
  pub token_hash : String
  pub expires_at : Instant
  pub revoked_at : Option Instant
  pub created_by_ip : Option String
  pub user_agent : Option String

pub record LoginAttempt : Type 0 where
  pub email : Text
  pub user_id : Option Uuid
  pub ip_address : Option String
  pub user_agent : Option String
  pub succeeded : Bool
  pub reason : Option String

pub record Media : Type 0 where
  pub id : Uuid
  pub name : Text
  pub type : MediaType
  pub country : String
  pub address : Option String
  pub phone : Option String
  pub email : Option String
  pub website : Option String
  pub responsible_name : Option String
  pub status : MediaStatus
  pub broadcaster_tier : Option BroadcasterTier

pub record RequesterProfile : Type 0 where
  pub id : Uuid
  pub user_id : Uuid
  pub media_id : Uuid
  pub first_name : Text
  pub last_name : Text
  pub birth_date : Option Instant
  pub nationality : Option String
  pub phone : String
  pub address : Option String
  pub function : String
  pub specialty : Option String
  pub press_card_number : Option String
  pub professional_phone : Option String
  pub professional_email : Option String
  pub status : RequesterStatus
  pub is_editor_in_chief : Bool

pub record Document : Type 0 where
  pub id : Uuid
  pub subject_type : Tag
  pub subject_id : Uuid
  pub document_type : Tag
  pub version : ℕ
  pub status : DocumentStatus
  pub storage_key : String
  pub mime_type : String
  pub size_bytes : ℕ
  pub checksum : String
  pub rejection_reason : Option String
  pub uploaded_by_id : Uuid
  pub reviewed_by_id : Option Uuid
  pub reviewed_at : Option Instant

pub record NotificationTemplate : Type 0 where
  pub event : NotificationEvent
  pub channel : NotificationChannel
  pub locale : String
  pub subject : Option Text
  pub body_template : Text
  pub active : Bool

pub record NotificationLog : Type 0 where
  pub id : Uuid
  pub event : NotificationEvent
  pub channel : NotificationChannel
  pub recipient_user_id : Option Uuid
  pub recipient_address : Text
  pub status : NotificationStatus
  pub provider_response : Option String
  pub sent_at : Option Instant

-- The columns that the listener fills; `newValue` is left out.
pub record AuditLog : Type 0 where
  pub actor_id : Option Uuid
  pub action : String
  pub object_type : String
  pub object_id : Option Uuid
