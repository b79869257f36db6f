-- ===== src/Store/Enums.antt =====
-- The enumerations of prisma/schema.prisma and of src/modules/requests/domain/request-status.ts.
use fsf_acreditation_backend.Base.{Eq, ℕ}

-- `RequestStatusValues`
pub data RequestStatus : Type 0 where
  draft submitted under_review info_requested complete pending_validation : RequestStatus
  validated rejected cancelled badge_generated access_used : RequestStatus

RequestStatus-discrete : Discrete RequestStatus
RequestStatus-discrete = hlevel

instance unfoldable pub request_status_eq : Eq RequestStatus
unfolding RequestStatus-discrete
request_status_eq = record { dec = RequestStatus-discrete }

pub data OverflowPolicy : Type 0 where
  queue manual_arbitration priority close : OverflowPolicy

OverflowPolicy-discrete : Discrete OverflowPolicy
OverflowPolicy-discrete = hlevel

instance unfoldable pub overflow_policy_eq : Eq OverflowPolicy
unfolding OverflowPolicy-discrete
overflow_policy_eq = record { dec = OverflowPolicy-discrete }

pub data MatchStatus : Type 0 where
  draft open_for_requests closed played cancelled archived : MatchStatus

MatchStatus-discrete : Discrete MatchStatus
MatchStatus-discrete = hlevel

instance unfoldable pub match_status_eq : Eq MatchStatus
unfolding MatchStatus-discrete
match_status_eq = record { dec = MatchStatus-discrete }

pub data AccreditationStatus : Type 0 where
  active revoked expired : AccreditationStatus

AccreditationStatus-discrete : Discrete AccreditationStatus
AccreditationStatus-discrete = hlevel

instance unfoldable pub accreditation_status_eq : Eq AccreditationStatus
unfolding AccreditationStatus-discrete
accreditation_status_eq = record { dec = AccreditationStatus-discrete }

pub data ScanResult : Type 0 where
  valid invalid expired revoked already_used out_of_scope : ScanResult

ScanResult-discrete : Discrete ScanResult
ScanResult-discrete = hlevel

instance unfoldable pub scan_result_eq : Eq ScanResult
unfolding ScanResult-discrete
scan_result_eq = record { dec = ScanResult-discrete }

pub data ScanSource : Type 0 where
  online offline_synced : ScanSource

pub data RoleInEvent : Type 0 where
  journaliste_reporter photographe cameraman commentateur technicien_regie : RoleInEvent

pub data UserKind : Type 0 where
  staff requester : UserKind

UserKind-discrete : Discrete UserKind
UserKind-discrete = hlevel

instance unfoldable pub user_kind_eq : Eq UserKind
unfolding UserKind-discrete
user_kind_eq = record { dec = UserKind-discrete }

pub data StaffRole : Type 0 where
  admin responsable_accreditation commission_validation agent_controle superviseur : StaffRole

StaffRole-discrete : Discrete StaffRole
StaffRole-discrete = hlevel

instance unfoldable pub staff_role_eq : Eq StaffRole
unfolding StaffRole-discrete
staff_role_eq = record { dec = StaffRole-discrete }

pub data UserStatus : Type 0 where
  pending active inactive suspended : UserStatus

UserStatus-discrete : Discrete UserStatus
UserStatus-discrete = hlevel

instance unfoldable pub user_status_eq : Eq UserStatus
unfolding UserStatus-discrete
user_status_eq = record { dec = UserStatus-discrete }

pub data DocumentStatus : Type 0 where
  pending validated rejected superseded : DocumentStatus

DocumentStatus-discrete : Discrete DocumentStatus
DocumentStatus-discrete = hlevel

instance unfoldable pub document_status_eq : Eq DocumentStatus
unfolding DocumentStatus-discrete
document_status_eq = record { dec = DocumentStatus-discrete }

-- `DocumentSubjectType` and `DocumentType`, which are only compared, by their position.
abbrev pub Tag : Type 0
Tag = ℕ

pub data MediaType : Type 0 where
  television radio presse_ecrite presse_en_ligne agence photographe createur_contenu : MediaType
  media_international autre : MediaType

MediaType-discrete : Discrete MediaType
MediaType-discrete = hlevel

instance unfoldable pub media_type_eq : Eq MediaType
unfolding MediaType-discrete
media_type_eq = record { dec = MediaType-discrete }

pub data MediaStatus : Type 0 where
  pending validated rejected suspended : MediaStatus

MediaStatus-discrete : Discrete MediaStatus
MediaStatus-discrete = hlevel

instance unfoldable pub media_status_eq : Eq MediaStatus
unfolding MediaStatus-discrete
media_status_eq = record { dec = MediaStatus-discrete }

pub data BroadcasterTier : Type 0 where
  host_broadcaster caf_rights_holder fifa_rights_holder non_rights_holder : BroadcasterTier
  written_press_accredited : BroadcasterTier

pub data RequesterStatus : Type 0 where
  pending validated rejected suspended : RequesterStatus

pub data CompetitionStatus : Type 0 where
  draft active archived : CompetitionStatus

CompetitionStatus-discrete : Discrete CompetitionStatus
CompetitionStatus-discrete = hlevel

instance unfoldable pub competition_status_eq : Eq CompetitionStatus
unfolding CompetitionStatus-discrete
competition_status_eq = record { dec = CompetitionStatus-discrete }

pub data NotificationEvent : Type 0 where
  account_created request_received complement_requested request_validated : NotificationEvent
  request_rejected badge_available match_updated closure_reminder : NotificationEvent
  accreditation_revoked : NotificationEvent

NotificationEvent-discrete : Discrete NotificationEvent
NotificationEvent-discrete = hlevel

instance unfoldable pub notification_event_eq : Eq NotificationEvent
unfolding NotificationEvent-discrete
notification_event_eq = record { dec = NotificationEvent-discrete }

pub data NotificationChannel : Type 0 where
  email sms : NotificationChannel

NotificationChannel-discrete : Discrete NotificationChannel
NotificationChannel-discrete = hlevel

instance unfoldable pub notification_channel_eq : Eq NotificationChannel
unfolding NotificationChannel-discrete
notification_channel_eq = record { dec = NotificationChannel-discrete }

pub data NotificationStatus : Type 0 where
  pending sent failed : NotificationStatus

NotificationStatus-discrete : Discrete NotificationStatus
NotificationStatus-discrete = hlevel

instance unfoldable pub notification_status_eq : Eq NotificationStatus
unfolding NotificationStatus-discrete
notification_status_eq = record { dec = NotificationStatus-discrete }
