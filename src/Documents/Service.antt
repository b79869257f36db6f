-- ===== src/Documents/Service.antt =====
-- src/modules/documents/documents.service.ts. The stored file is left out, and its key and
-- checksum are given.
use fsf_acreditation_backend.Base.{
  ℕ, ◌+◌, Bool, Option, none, some, List, [], ◌∷◌, not, or_else, ◌&&◌, ◌==◌, ltb, nat_eq, string_eq,
  includes, String, if◌then◌else◌, leb,
}
use fsf_acreditation_backend.Kernel.Errors.{ErrorCode, ErrorKind, throws}
use fsf_acreditation_backend.Store.{
  Prisma, Action, pure, gets, or_throw, throw_if, modify, publish, ◌>>=◌, ◌>>◌, Uuid, Instant, Tag,
  Document, DocumentStatus, document_status_eq, document_uploaded, document_reviewed, document_key,
}

-- `UploadFileInput`, with the key under which the file is stored and its SHA-256.
pub record UploadFile : Type 0 where
  pub mimetype : String
  pub size : ℕ
  pub storage_key : String
  pub checksum : String

-- `config.storage`
pub record StorageConfig : Type 0 where
  pub max_file_size_bytes : ℕ
  pub allowed_mime_types : List String

-- `assertValidFile`
unfoldable pub assert_valid_file : StorageConfig → UploadFile → Action (Unit {0})
assert_valid_file config file = do
  throw_if (ltb config.max_file_size_bytes file.size)
      (throws ErrorCode.document_too_large ErrorKind.validation)
  throw_if (not (includes config.allowed_mime_types file.mimetype))
      (throws ErrorCode.document_invalid_format ErrorKind.validation)

-- A current version of a document of a subject.
abbrev pub is_current : Tag → Uuid → Tag → Document → Bool
is_current subject_type subject_id document_type d =
    d.subject_type == subject_type
    && (d.subject_id == subject_id
        && (d.document_type == document_type && not (d.status == DocumentStatus.superseded)))

-- The later of a document and the best of the others.
abbrev pub later : Document → Option Document → Option Document
later d none = some d
later d (some e) = if leb e.version d.version then some d else some e

-- `orderBy: { version: 'desc' }`, and the first.
unfoldable pub latest : List Document → Option Document
latest [] = none
latest (d ∷ ds) = later d (latest ds)

-- `(previous?.version ?? 0) + 1`
abbrev pub next_version : Option Document → ℕ
next_version none = 0 + 1
next_version (some d) = d.version + 1

abbrev pub supersede : Document → Document
supersede d = record d { status = DocumentStatus.superseded }

-- `typeof DocumentStatus.VALIDATED | typeof DocumentStatus.REJECTED`
pub data Review : Type 0 where
  validate reject : Review

abbrev pub review_status : Review → DocumentStatus
review_status validate = DocumentStatus.validated
review_status reject = DocumentStatus.rejected

abbrev pub reviewed : Instant → Review → Uuid → Option String → Document → Document
reviewed now status reviewed_by_id reason d = record d {
  status = review_status status;
  rejection_reason = or_else reason d.rejection_reason;
  reviewed_by_id = some reviewed_by_id;
  reviewed_at = some now;
}

module _ (db : Prisma) where
  -- `if (previous)`: the earlier version is superseded.
  unfoldable pub supersede_previous : Option Document → List Document → List Document
  supersede_previous none rows = rows
  supersede_previous (some d) rows = db.update_rows (document_key d.id) supersede rows

  -- `upload`
  unfoldable pub upload :
      StorageConfig → (new_id : Uuid) → Tag → Uuid → Tag → UploadFile → Uuid → Action Document
  unfolding supersede_previous latest
  upload config new_id subject_type subject_id document_type file uploaded_by_id = do
    assert_valid_file config file
    previous ←
        gets (λ s.
          latest (db.find_many (is_current subject_type subject_id document_type) s.documents))
    let created : Document = record {
      id = new_id;
      subject_type = subject_type;
      subject_id = subject_id;
      document_type = document_type;
      version = next_version previous;
      status = DocumentStatus.pending;
      storage_key = file.storage_key;
      mime_type = file.mimetype;
      size_bytes = file.size;
      checksum = file.checksum;
      rejection_reason = none;
      uploaded_by_id = uploaded_by_id;
      reviewed_by_id = none;
      reviewed_at = none;
    }
    modify
        (λ s. record s { documents = db.create created (supersede_previous previous s.documents) })
    publish (document_uploaded new_id subject_type subject_id)
    pure created

  -- `get`
  unfoldable pub get_document : Uuid → Action Document
  get_document id = do
    or_throw (← gets (λ s. db.find_unique (document_key id) s.documents))
        (throws ErrorCode.document_not_found ErrorKind.not_found)

  -- `review`
  unfoldable pub review : Instant → Uuid → Review → Uuid → Option String → Action Document
  unfolding get_document
  review now id status reviewed_by_id reason = do
    d ← get_document id
    modify (λ s. record s {
      documents =
          db.update_rows (document_key id) (reviewed now status reviewed_by_id reason) s.documents;
    })
    publish (document_reviewed d.id d.subject_type d.subject_id (review_status status) reason)
    pure (reviewed now status reviewed_by_id reason d)

  -- `listForSubject`, less the order.
  unfoldable pub list_for_subject : Tag → Uuid → Action (List Document)
  list_for_subject subject_type subject_id = gets (λ s.
      db.find_many (λ d. d.subject_type == subject_type && d.subject_id == subject_id) s.documents)

  -- `getDownloadUrl`; the signed link of a stored file is the answer of the storage.
  unfoldable pub get_download_url : (sign : String → String) → Uuid → Action String
  unfolding get_document
  get_download_url sign id = do d ← get_document id; pure (sign d.storage_key)
