-- ===== src/Kernel/Errors.antt =====
-- Business errors and their HTTP status: src/shared/kernel/errors/domain.error.ts and
-- src/shared/kernel/errors/error-catalog.ts. The message and the details of an error are display
-- text and are left out.
use fsf_acreditation_backend.Base.{ℕ}

-- `DomainErrorKind`
pub data ErrorKind : Type 0 where
  validation not_found conflict forbidden quota_exceeded invalid_transition unauthorized : ErrorKind

-- The codes of `ErrorCodes`, then those that the services spell out themselves.
pub data ErrorCode : Type 0 where
  request_not_found request_invalid_transition request_outside_period : ErrorCode
  request_duplicate_suspected quota_exceeded document_invalid_format : ErrorCode
  document_too_large accreditation_not_found accreditation_already_revoked : ErrorCode
  media_not_found match_not_found match_requests_closed user_not_found : ErrorCode
  user_email_already_used user_cannot_modify_self user_has_history : ErrorCode
  invalid_credentials account_locked forbidden_scope report_unknown : ErrorCode
  quota_not_configured reference_generation_failed complement_not_found : ErrorCode
  badge_number_generation_failed user_role_requires_staff_kind document_not_found : ErrorCode
  category_not_found zone_not_found competition_not_found : ErrorCode
  category_code_taken zone_code_taken requester_not_found document_type_invalid : ErrorCode

pub record DomainError : Type 0 where
  pub code : ErrorCode
  pub kind : ErrorKind

-- What an operation can throw: a business error, an exception of the framework, the refusal of the
-- database to break a unique constraint or a foreign key of prisma/schema.prisma, or its answer to
-- the update of a row that is not there.
pub data Failure : Type 0 where
  domain : DomainError → Failure
  forbidden_exception unauthorized_exception unique_violation foreign_key_violation unknown_record :
      Failure

abbrev pub throws : ErrorCode → ErrorKind → Failure
throws code kind = domain (record { code = code; kind = kind })

-- `ERROR_KIND_HTTP_STATUS`
unfoldable pub http_status : ErrorKind → ℕ
http_status validation = 400
http_status not_found = 404
http_status conflict = 409
http_status forbidden = 403
http_status unauthorized = 401
http_status quota_exceeded = 409
http_status invalid_transition = 409
