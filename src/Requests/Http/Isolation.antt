-- ===== src/Requests/Http/Isolation.antt =====
-- What a caller without a role of the staff can change through the two controllers.
use fsf_acreditation_backend.Base.{
  ◌≡◌, ◌≢◌, refl, sym, ap, ◌∙◌, false, Option, none, some, [], ◌∷◌, nat_eq, arith, List,
}
use fsf_acreditation_backend.Kernel.Errors.{Failure}
use fsf_acreditation_backend.Kernel.Permissions.{
  Permission, permission_eq, requests_read_any, requests_complement_request, requests_validate,
  permissions_for_role, can_activate,
}
use fsf_acreditation_backend.Kernel.Listing.{Listing, list_page}
use fsf_acreditation_backend.Store.{
  Prisma, Database, Action, Reads, ◌>>=◌, Uuid, Instant, Tag, Env, RequestStatus,
  AccreditationRequest, request_key, throw_if, or_throw, or_throw_rule, throw_if_rule, read_rule,
  throw_if-true,
}
use fsf_acreditation_backend.Accreditations.Service.{Crypto}
use fsf_acreditation_backend.Documents.Service.{
  StorageConfig, UploadFile, assert_valid_file, upload,
}
use fsf_acreditation_backend.Iam.Auth.{AuthenticatedUser}
use fsf_acreditation_backend.Iam.Guard.{require_permission}
use fsf_acreditation_backend.Requests.Queries.{
  ListRequests, request_subject, get_request, list_requests,
}
use fsf_acreditation_backend.Requests.Ownership.{Isolated, OthersStay-refl, DistinctIds}
use fsf_acreditation_backend.Requests.Isolation.{
  submit_request-Isolated, cancel_request-Isolated, resolve_complement-Isolated,
  save_draft-Isolated,
}
use fsf_acreditation_backend.Requests.Http.Requester.{CreateDraftRequest, draft_input}
use fsf_acreditation_backend.Requests.Http.Requester
use fsf_acreditation_backend.Requests.Http.Desk.{AskComplement, DecideRequest}
use fsf_acreditation_backend.Requests.Http.Desk

-- The routes, with what a call of each carries and reads from outside.
pub data Route : Type 0 where
  create : Env → CreateDraftRequest → Route
  list : Listing AccreditationRequest → ListRequests → Route
  get : Uuid → Route
  submit : Instant → Uuid → Route
  upload_document : StorageConfig → Env → Uuid → Option Tag → UploadFile → Route
  resolve : Instant → (id complement_id : Uuid) → Route
  cancel : Uuid → Route
  admin_list : Listing AccreditationRequest → ListRequests → Route
  admin_get : Uuid → Route
  admin_complement : Env → Uuid → AskComplement → Route
  admin_transition : Uuid → RequestStatus → Route
  admin_decide : Crypto → Env → Uuid → DecideRequest → Route
  admin_cancel : Uuid → Route

module _ (db : Prisma) where
  -- The database after a call, whether it returned or threw.
  unfoldable pub serve : Route → AuthenticatedUser → Database → Database
  serve (create env dto) user s = (Requester.create db env dto user s).1
  serve (list listing query) user s = (Requester.list db listing query user s).1
  serve (get id) user s = (Requester.get db id user s).1
  serve (submit now id) user s = (Requester.submit db now id user s).1
  serve (upload_document config env id kind file) user s =
      (Requester.upload_document db config env id kind file user s).1
  serve (resolve now id complement_id) user s = (Requester.resolve db now id complement_id user s).1
  serve (cancel id) user s = (Requester.cancel db id user s).1
  serve (admin_list listing query) user s = (Desk.list db listing query user s).1
  serve (admin_get id) user s = (Desk.get db id user s).1
  serve (admin_complement env id dto) user s = (Desk.complement db env id dto user s).1
  serve (admin_transition id to_status) user s = (Desk.transition db id to_status user s).1
  serve (admin_decide crypto env id dto) user s = (Desk.decide db crypto env id dto user s).1
  serve (admin_cancel id) user s = (Desk.cancel db id user s).1

  -- A saved draft gets an identifier that no request has.
  abbrev pub IsFreshRoute : Route → Database → Type 0
  IsFreshRoute (create env dto) s = db.find_unique (request_key env.new_id) s.requests ≡ none
  IsFreshRoute _ s = Unit

  -- The requests that are not those of the caller are the same rows.
  abbrev pub ForeignStay :
      AuthenticatedUser → List AccreditationRequest → List AccreditationRequest → Type 0
  ForeignStay user rows rows' =
      (id : Uuid) (r : AccreditationRequest)
      → db.find_unique (request_key id) rows ≡ some r
      → user.requester_profile_id ≢ some r.requester_id
      → db.find_unique (request_key id) rows' ≡ some r

  ForeignStay-eq :
      (user : AuthenticatedUser) {rows rows' : List AccreditationRequest}
      → rows' ≡ rows
      → ForeignStay user rows rows'
  ForeignStay-eq user e id r h other = rw e h

  -- A handler that needs the profile of the caller.
  with_profile :
      {A : Type 0} (user : AuthenticatedUser) (s : Database) (k : Uuid → Action A)
      → ((owner : Uuid) → Isolated db owner s (k owner s))
      → ForeignStay user s.requests
          ((or_throw user.requester_profile_id Failure.forbidden_exception >>= k) s).1.requests
  with_profile user s k mine id r h other =
      or_throw_rule (λ o. db.find_unique (request_key id) o.1.requests ≡ some r)
        user.requester_profile_id Failure.forbidden_exception k s (λ e. h)
        λ owner e. mine owner id r h (λ same. other (e ∙ ap some (sym same)))

  -- The guard of permissions, for a caller without a role.
  refused :
      {A : Type 0} (p : Permission) (user : AuthenticatedUser) (m : Action A) (s : Database)
      → user.permissions ≡ permissions_for_role none
      → can_activate false (p ∷ []) (some (permissions_for_role none)) ≡ false
      → ForeignStay user s.requests (require_permission p user m s).1.requests
  refused p user m s role barred =
      let thrown = throw_if-true Failure.forbidden_exception m s (rw (role, barred) refl) in
      ForeignStay-eq user (ap (λ o. o.1.requests) thrown)

  pub get_request-Reads : (id : Uuid) → Reads (get_request db id)
  unfolding get_request
  get_request-Reads id s = or_throw_rule (λ o. o.1 ≡ s) _ _ _ s (λ e. refl) (λ r found. refl)

  get-Reads : (id : Uuid) (user : AuthenticatedUser) → Reads (Requester.get db id user)
  unfolding Requester.get
  get-Reads id user s =
      read_rule (λ o. o.1 ≡ s) (get_request db id) _ s (get_request-Reads id) (λ e h. refl)
        λ d h.
          or_throw_rule (λ o. o.1 ≡ s) _ _ _ s (λ e. refl)
            λ owner e. throw_if_rule (λ o. o.1 ≡ s) _ _ _ s (λ e. refl) (λ e. refl)

  upload-requests :
      (config : StorageConfig) (new_id : Uuid) (subject : Tag) (id : Uuid) (kind : Tag)
      (file : UploadFile) (actor : Uuid) (s : Database)
      → (upload db config new_id subject id kind file actor s).1.requests ≡ s.requests
  unfolding upload assert_valid_file throw_if
  upload-requests config new_id subject id kind file actor s = ground arith

  upload_document-requests :
      (config : StorageConfig) (env : Env) (id : Uuid) (kind : Option Tag) (file : UploadFile)
      (user : AuthenticatedUser) (s : Database)
      → (Requester.upload_document db config env id kind file user s).1.requests ≡ s.requests
  unfolding Requester.upload_document
  upload_document-requests config env id kind file user s =
      read_rule (λ o. o.1.requests ≡ s.requests) (Requester.get db id user) _ s (get-Reads id user)
        (λ e h. refl)
        λ d h.
          or_throw_rule (λ o. o.1.requests ≡ s.requests) _ _ _ s (λ e. refl)
            λ k e. upload-requests config env.new_id request_subject id k file user.id s

  -- A caller without a role of the staff, whatever route it calls, of its own controller or of that
  -- of the staff, and whether the call returns or throws, changes no request but those of its own
  -- profile, and without a profile none at all, where no two requests have one identifier and a
  -- new draft gets a fresh one.
  pub serve-ForeignStay :
      (route : Route) (user : AuthenticatedUser) (s : Database)
      → user.permissions ≡ permissions_for_role none
      → DistinctIds db s
      → IsFreshRoute route s
      → ForeignStay user s.requests (serve route user s).requests
  unfolding serve Requester.create Requester.list Requester.submit Requester.resolve
      Requester.cancel Desk.list Desk.get Desk.complement Desk.transition Desk.decide Desk.cancel
      list_requests list_page can_activate permissions_for_role permission_eq
  serve-ForeignStay (create env dto) user s role distinct fresh =
      with_profile user s _
        (λ owner. save_draft-Isolated db owner env (draft_input owner dto) s refl distinct fresh)
  serve-ForeignStay (list listing query) user s role distinct fresh =
      with_profile user s _ (λ owner. OthersStay-refl db owner s.requests)
  serve-ForeignStay (get id) user s role distinct fresh =
      ForeignStay-eq user (ap (λ t. t.requests) (get-Reads id user s))
  serve-ForeignStay (submit now id) user s role distinct fresh =
      with_profile user s _ (λ owner. submit_request-Isolated db owner now _ s refl)
  serve-ForeignStay (upload_document config env id kind file) user s role distinct fresh =
      ForeignStay-eq user (upload_document-requests config env id kind file user s)
  serve-ForeignStay (resolve now id complement_id) user s role distinct fresh =
      with_profile user s _ (λ owner. resolve_complement-Isolated db owner now _ s refl)
  serve-ForeignStay (cancel id) user s role distinct fresh =
      with_profile user s _ (λ owner. cancel_request-Isolated db owner _ s refl)
  serve-ForeignStay (admin_list listing query) user s role distinct fresh =
      refused requests_read_any user (list_requests db listing query none) s role refl
  serve-ForeignStay (admin_get id) user s role distinct fresh =
      refused requests_read_any user (get_request db id) s role refl
  serve-ForeignStay (admin_complement env id dto) user s role distinct fresh =
      refused requests_complement_request user _ s role refl
  serve-ForeignStay (admin_transition id to_status) user s role distinct fresh =
      refused requests_validate user _ s role refl
  serve-ForeignStay (admin_decide crypto env id dto) user s role distinct fresh =
      refused requests_validate user _ s role refl
  serve-ForeignStay (admin_cancel id) user s role distinct fresh =
      refused requests_validate user _ s role refl
