-- ===== src/Store/State.antt =====
-- The tables, and the events published so far, the last one first.
use fsf_acreditation_backend.Base.{List, []}
use fsf_acreditation_backend.Store.Rows.{
  AccreditationRequest, RequestDecision, RequestComplement, MatchCategoryQuota,
  MatchCategoryQuotaZone, Match, Accreditation, AccreditationZone, ScanLog, Competition,
  AccreditationCategory, Zone, User, RefreshToken, LoginAttempt, RequesterProfile, Document, Media,
  NotificationTemplate, NotificationLog, AuditLog,
}
use fsf_acreditation_backend.Store.Events.{Event}

pub record Database : Type 0 where
  pub requests : List AccreditationRequest
  pub decisions : List RequestDecision
  pub complements : List RequestComplement
  pub quotas : List MatchCategoryQuota
  pub quota_zones : List MatchCategoryQuotaZone
  pub competitions : List Competition
  pub matches : List Match
  pub categories : List AccreditationCategory
  pub zones : List Zone
  pub accreditations : List Accreditation
  pub accreditation_zones : List AccreditationZone
  pub scan_logs : List ScanLog
  pub users : List User
  pub refresh_tokens : List RefreshToken
  pub login_attempts : List LoginAttempt
  pub profiles : List RequesterProfile
  pub documents : List Document
  pub media : List Media
  pub templates : List NotificationTemplate
  pub notification_logs : List NotificationLog
  pub audit_logs : List AuditLog
  pub events : List Event

abbrev pub empty_database : Database
empty_database = record {
  requests = [];
  decisions = [];
  complements = [];
  quotas = [];
  quota_zones = [];
  competitions = [];
  matches = [];
  categories = [];
  zones = [];
  accreditations = [];
  accreditation_zones = [];
  scan_logs = [];
  users = [];
  refresh_tokens = [];
  login_attempts = [];
  profiles = [];
  documents = [];
  media = [];
  templates = [];
  notification_logs = [];
  audit_logs = [];
  events = [];
}
