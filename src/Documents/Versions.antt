-- ===== src/Documents/Versions.antt =====
-- The versions of a document.
use mathlib.Core.Option.{some-injective, some-ne-none}
use mathlib.Core.Bool.{true≢false}
use fsf_acreditation_backend.Base.{
  ℕ, ◌+◌, ◌≤◌, ◌≡◌, ◌≢◌, ◌⊎◌, false, All-map, refl, sym, ap, subst, ◌∙◌, Bool, true, Option, none,
  some, List, [], ◌∷◌, nat_eq, arith, includes, string_eq, count, select, update, All, Bool-cases,
  inl, inr,
}
use fsf_acreditation_backend.Store.{
  Prisma, Database, ok, throw_if, then_ok, Uuid, Tag, Document, DocumentStatus, document_status_eq,
  document_key, document_uploaded, find_unique-create,
}
use fsf_acreditation_backend.Documents.Service.{
  UploadFile, StorageConfig, assert_valid_file, is_current, later, latest, next_version, supersede,
  supersede_previous, upload,
}

module _ (p : Document → Bool) where
  select_none : (xs : List Document) → count p xs ≤ 0 → select p xs ≡ []
  unfolding count select
  select_none [] h = refl
  select_none (x ∷ xs) h = ground (arith, select_none xs)

  none_fits :
      (xs : List Document) (d : Document) → count p xs ≤ 0 → All (λ r. p r ≡ true → r ≡ d) xs
  unfolding count
  none_fits [] d h = tt
  none_fits (x ∷ xs) d h = ((λ t. ground arith), none_fits xs d (ground arith))

  -- If one row at most fits, the latest of those that fit is the one.
  latest_only :
      (xs : List Document) (d : Document)
      → count p xs ≤ 1
      → latest (select p xs) ≡ some d
      → All (λ r. p r ≡ true → r ≡ d) xs
  unfolding count select latest
  latest_only [] d few h = tt
  latest_only (x ∷ xs) d few h = elim (Bool-cases (p x)) [
    | inl e ↦
        let rest = select_none xs (ground arith) in
        ((λ t. some-injective x d (rw (e, rest) at h)), none_fits xs d (ground arith))
    | inr e ↦
        let h' : latest (select p xs) ≡ some d = rw e at h in
        ((λ t. absurd (true≢false (sym t ∙ e))), latest_only xs d (ground arith) h')
  ]

  latest-none : (xs : List Document) → latest (select p xs) ≡ none → count p xs ≡ 0
  unfolding count select latest
  latest-none [] h = refl
  latest-none (x ∷ xs) h = elim (Bool-cases (p x)) [
    | inl e ↦ absurd (never x (latest (select p xs)) (rw e at h))
    | inr e ↦ rw e (latest-none xs (rw e at h))
  ]
    where
      never : (d : Document) (o : Option Document) → ¬ (later d o ≡ none)
      never d none h = some-ne-none d h
      never d (some e) h = ground arith

  count-none : (xs : List Document) → All (λ r. p r ≡ false) xs → count p xs ≤ 0
  unfolding count
  count-none [] h = ground arith
  count-none (x ∷ xs) h = ground (arith, h.0, count-none xs h.1)

  none-count : (xs : List Document) → count p xs ≤ 0 → All (λ r. p r ≡ false) xs
  unfolding count
  none-count [] h = tt
  none-count (x ∷ xs) h = (ground arith, none-count xs (ground arith))

module _ (subject : Tag) (id : Uuid) (kind : Tag) where
  -- A row is a version of the document that is not superseded.
  abbrev pub IsVersion : Document → Type 0
  IsVersion d =
      (d.subject_type ≡ subject)
      × (d.subject_id ≡ id)
      × (d.document_type ≡ kind)
      × (d.status ≢ DocumentStatus.superseded)

  IsVersion-is_current : (d : Document) → IsVersion d → is_current subject id kind d ≡ true
  IsVersion-is_current d (t, i, k, live) = ground arith

  is_current-IsVersion : (d : Document) → is_current subject id kind d ≡ true → IsVersion d
  is_current-IsVersion d h = (ground arith, ground arith, ground arith, λ e. ground arith)

  not_version : (d : Document) → ¬ IsVersion d → is_current subject id kind d ≡ false
  not_version d n = elim (Bool-cases (is_current subject id kind d)) [
    | inl e ↦ absurd (n (is_current-IsVersion d e))
    | inr e ↦ e
  ]

  -- The number of the next version, by what the versions before are.
  numbered :
      (xs : List Document)
      → count (is_current subject id kind) xs ≤ 1
      → (o : Option Document) → latest (select (is_current subject id kind) xs) ≡ o
      → (All (λ e. ¬ IsVersion e) xs × (next_version o ≡ 1))
        ⊎ ((¬ All (λ e. ¬ IsVersion e) xs)
            × All (λ e. IsVersion e → next_version o ≡ e.version + 1) xs)
  unfolding latest
  numbered xs few none e = inl (
    All-map _ _ xs (λ r off is_one. true≢false (sym (IsVersion-is_current r is_one) ∙ off))
        (none-count (is_current subject id kind) xs
          (ground (arith, latest-none (is_current subject id kind) xs e))),
    ground arith,
  )
  numbered xs few (some d) e = inr (
    λ h.
        let off =
          count-none (is_current subject id kind) xs (All-map _ _ xs (λ r n. not_version r n) h) in
        some-ne-none d (sym e ∙ ap latest (select_none (is_current subject id kind) xs off)),
    All-map _ _ xs
        (λ r same is_one. ap (λ x. x.version + 1) (sym (same (IsVersion-is_current r is_one))))
        (latest_only (is_current subject id kind) xs d few e),
  )

  superseded-All :
      (xs : List Document) (d : Document)
      → All (λ r. is_current subject id kind r ≡ true → r ≡ d) xs
      → count (is_current subject id kind) (update (document_key d.id) supersede xs) ≡ 0
  unfolding count update
  superseded-All [] d a = refl
  superseded-All (x ∷ xs) d a =
      let rest = superseded-All xs d a.1 in
      elim (Bool-cases (is_current subject id kind x)) [
        | inl e ↦ let same : x.id ≡ d.id = ap (λ r. r.id) (a.0 e) in rw rest (ground arith)
        | inr e ↦ rw rest (ground arith)
      ]

module _ (db : Prisma) where
  previous_gone :
      (subject : Tag) (id : Uuid) (kind : Tag) (rows : List Document) (o : Option Document)
      → count (is_current subject id kind) rows ≤ 1
      → latest (select (is_current subject id kind) rows) ≡ o
      → count (is_current subject id kind) (supersede_previous db o rows) ≡ 0
  unfolding supersede_previous
  previous_gone subject id kind rows none few e = latest-none _ rows e
  previous_gone subject id kind rows (some d) few e =
      rw (db.update_rows_lem (document_key d.id) supersede rows) (
        superseded-All subject id kind rows d
          (latest_only (is_current subject id kind) rows d few e))

  abbrev new_document : Uuid → Tag → Uuid → Tag → UploadFile → Uuid → ℕ → Document
  new_document new_id subject id kind file actor version = record {
    id = new_id;
    subject_type = subject;
    subject_id = id;
    document_type = kind;
    version = version;
    status = DocumentStatus.pending;
    storage_key = file.storage_key;
    mime_type = file.mimetype;
    size_bytes = file.size;
    checksum = file.checksum;
    rejection_reason = none;
    uploaded_by_id = actor;
    reviewed_by_id = none;
    reviewed_at = none;
  }

  accepted_file :
      (config : StorageConfig) (file : UploadFile) (s : Database)
      → file.size ≤ config.max_file_size_bytes
      → includes config.allowed_mime_types file.mimetype ≡ true
      → assert_valid_file config file s ≡ (ok tt, s)
  unfolding assert_valid_file throw_if
  accepted_file config file s small accepted = ground (arith, accepted)

  upload_run :
      (config : StorageConfig) (new_id : Uuid) (subject : Tag) (id : Uuid) (kind : Tag)
      (file : UploadFile) (actor : Uuid) (s : Database)
      → assert_valid_file config file s ≡ (ok tt, s)
      → let previous = latest (db.find_many (is_current subject id kind) s.documents) in
        let created = new_document new_id subject id kind file actor (next_version previous) in
        upload db config new_id subject id kind file actor s ≡ (
          ok created,
          record s {
            documents = db.create created (supersede_previous db previous s.documents);
            events = document_uploaded new_id subject id ∷ s.events;
          },
        )
  unfolding upload
  upload_run config new_id subject id kind file actor s valid_file =
      then_ok (assert_valid_file config file) _ s valid_file

  count_new :
      (q : Document → Bool) (d : Document) (rows : List Document)
      → q d ≡ true
      → count q rows ≡ 0
      → count q (d ∷ rows) ≡ 1
  unfolding count
  count_new q d rows h none_yet = ground (arith, h, none_yet)

  -- An upload of a file of an accepted size and type, where the document has one current version at
  -- most, returns: the new version is pending, its number is one above that of the version of that
  -- subject and type that was not superseded, or 1 if there was none, and it is then the one current
  -- version.
  pub upload-is_current :
      (config : StorageConfig) (new_id : Uuid) (subject : Tag) (id : Uuid) (kind : Tag)
      (file : UploadFile) (actor : Uuid) (s : Database)
      → file.size ≤ config.max_file_size_bytes
      → includes config.allowed_mime_types file.mimetype ≡ true
      → count (is_current subject id kind) s.documents ≤ 1
      → let (result, s') = upload db config new_id subject id kind file actor s in
        ((d : Document) × (result ≡ ok d)
          × (d.status ≡ DocumentStatus.pending)
          × ((All (λ e. ¬ IsVersion subject id kind e) s.documents × (d.version ≡ 1))
              ⊎ ((¬ All (λ e. ¬ IsVersion subject id kind e) s.documents)
                  × All (λ e. IsVersion subject id kind e → d.version ≡ e.version + 1) s.documents))
          × IsVersion subject id kind d
          × (db.find_unique (document_key new_id) s'.documents ≡ some d))
        × (count (is_current subject id kind) s'.documents ≡ 1)
  upload-is_current config new_id subject id kind file actor s small accepted few =
      let current = is_current subject id kind in
      let previous = latest (db.find_many current s.documents) in
      let queried : previous ≡ latest (select current s.documents) =
        ap latest (db.find_many_lem current s.documents) in
      let created = new_document new_id subject id kind file actor (next_version previous) in
      let rows = supersede_previous db previous s.documents in
      let went =
        upload_run config new_id subject id kind file actor s
          (accepted_file config file s small accepted) in
      let gone = previous_gone subject id kind s.documents previous few (sym queried) in
      rw went (
        (
          created,
          refl,
          refl,
          numbered subject id kind s.documents few previous (sym queried),
          (refl, refl, refl, λ e. ground arith),
          find_unique-create db (document_key new_id) created rows (ground arith),
        ),
        subst (λ ds. count current ds ≡ 1) (sym (db.create_lem created rows))
            (count_new current created rows (ground arith) gone),
      )
