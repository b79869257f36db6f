-- ===== src/Requests/Cancellation.antt =====
-- What a cancellation does to the request and to the quota.
use fsf_acreditation_backend.Base.{
  ◌-◌, ◌≡◌, refl, ap, ◌∙◌, Bool, true, false, not, nat_eq, none, some, List, ◌∷◌, includes,
  Bool-cases, inl, inr, if◌then◌else◌,
}
use fsf_acreditation_backend.Kernel.Errors.{ErrorCode, ErrorKind, throws}
use fsf_acreditation_backend.Store.{
  Prisma, Database, Action, pure, publish, ◌>>◌, ok, err, when, or_throw-some, throw_if-false,
  when-true, when-false, then_ok, then_err, AccreditationRequest, MatchCategoryQuota, RequestStatus,
  request_status_eq, request_key, quota_of, request_cancelled, find_unique-update_rows_self,
}
use fsf_acreditation_backend.Accreditations.Service.{is_foreign}
use fsf_acreditation_backend.Quotas.Service.{take_one, release_slot}
use fsf_acreditation_backend.Quotas.Laws.{release_slot_lem, release_slot_missing}
use fsf_acreditation_backend.Requests.Status.{assert_transition_allowed}
use fsf_acreditation_backend.Requests.Machine.{Allowed}
use fsf_acreditation_backend.Requests.Effects.{found_by_id}
use fsf_acreditation_backend.Requests.Transition.{with_status}
use fsf_acreditation_backend.Requests.Cancel.{
  CancelRequestInput, statuses_with_reserved_quota, cancel_request,
}

-- A request in such a status holds a slot of the quota.
abbrev pub holds_slot : RequestStatus → Bool
holds_slot status = includes statuses_with_reserved_quota status

-- The statuses of a request that took a slot: it was validated, has its badge, or was let in.
abbrev pub took_slot : RequestStatus → Bool
took_slot RequestStatus.draft = false
took_slot RequestStatus.submitted = false
took_slot RequestStatus.under_review = false
took_slot RequestStatus.info_requested = false
took_slot RequestStatus.complete = false
took_slot RequestStatus.pending_validation = false
took_slot RequestStatus.validated = true
took_slot RequestStatus.rejected = false
took_slot RequestStatus.cancelled = false
took_slot RequestStatus.badge_generated = true
took_slot RequestStatus.access_used = true

freed :
    (status : RequestStatus) (q : MatchCategoryQuota)
    → (if holds_slot status then take_one q else q)
      ≡ record q { consumed = if took_slot status then q.consumed - 1 else q.consumed }
unfolding request_status_eq
freed RequestStatus.draft q = refl
freed RequestStatus.submitted q = refl
freed RequestStatus.under_review q = refl
freed RequestStatus.info_requested q = refl
freed RequestStatus.complete q = refl
freed RequestStatus.pending_validation q = refl
freed RequestStatus.validated q = refl
freed RequestStatus.rejected q = refl
freed RequestStatus.cancelled q = refl
freed RequestStatus.badge_generated q = refl
freed RequestStatus.access_used q = refl

module _ (db : Prisma) where
  abbrev cancelled_state : CancelRequestInput → AccreditationRequest → Database → Database
  cancelled_state input r s = record s {
    requests = db.update_rows (request_key r.id) (with_status RequestStatus.cancelled) s.requests;
    decisions =
        db.create
          (record {
            request_id = r.id;
            actor_id = input.actor_id;
            from_status = r.status;
            to_status = RequestStatus.cancelled;
            reason = none;
          })
          s.decisions;
  }

  abbrev announce : AccreditationRequest → Action AccreditationRequest
  announce r =
      publish (request_cancelled r.id r.status) >> pure (with_status RequestStatus.cancelled r)

  -- Past the guards, the request is cancelled, and the slot is still to be given back.
  begun :
      (input : CancelRequestInput) (s : Database) (r : AccreditationRequest)
      → db.find_unique (request_key input.request_id) s.requests ≡ some r
      → is_foreign input.requester_id r.requester_id ≡ false
      → Allowed r.status RequestStatus.cancelled
      → cancel_request db input s
        ≡ (when (holds_slot r.status) (release_slot db r.match_id r.category_requested_id)
              >> announce r)
            (cancelled_state input r s)
  unfolding cancel_request assert_transition_allowed
  begun input s r found owned allowed =
      or_throw-some _ _ s found ∙ throw_if-false _ _ s owned ∙ throw_if-false _ _ s (ap not allowed)

  -- The database after a cancellation that has left a table of quotas.
  abbrev pub cancelled_with :
      CancelRequestInput → AccreditationRequest → List MatchCategoryQuota → Database → Database
  cancelled_with input r rows s = record (cancelled_state input r s) {
    quotas = rows;
    events = request_cancelled r.id r.status ∷ s.events;
  }

  pub cancel_request_run :
      (input : CancelRequestInput) (s : Database) (r : AccreditationRequest)
      (q : MatchCategoryQuota)
      → db.find_unique (request_key input.request_id) s.requests ≡ some r
      → is_foreign input.requester_id r.requester_id ≡ false
      → Allowed r.status RequestStatus.cancelled
      → db.find_unique (quota_of r.match_id r.category_requested_id) s.quotas ≡ some q
      → (rows : List MatchCategoryQuota) × (cancel_request db input s
          ≡ (ok (with_status RequestStatus.cancelled r), cancelled_with input r rows s))
        × (db.find_unique (quota_of r.match_id r.category_requested_id) rows
            ≡ some (if holds_slot r.status then take_one q else q))
  cancel_request_run input s r q found owned allowed found_q =
      let start = begun input s r found owned allowed in
      let done = cancelled_state input r s in
      let release = release_slot db r.match_id r.category_requested_id in
      elim (Bool-cases (holds_slot r.status)) [
        | inl held ↦
            let (rows, released, after) =
              release_slot_lem db r.match_id r.category_requested_id done q found_q in
            (
              rows,
              start
                  ∙ when-true release (announce r) done held
                  ∙ then_ok release (λ u. announce r) done released,
              rw held after,
            )
        | inr free ↦ (s.quotas, start ∙ when-false release (announce r) done free, rw free found_q)
      ]

  -- Where the quota of the request is configured, a cancellation that the transitions allow, by a
  -- caller who may cancel it, returns: the request is cancelled, the counter of its quota is one
  -- lower (or 0) if the request was validated, had a badge or was let in, and the same otherwise,
  -- and the cancellation is published.
  pub cancel_request_lem :
      (input : CancelRequestInput) (s : Database) (r : AccreditationRequest)
      (q : MatchCategoryQuota)
      → db.find_unique (request_key input.request_id) s.requests ≡ some r
      → is_foreign input.requester_id r.requester_id ≡ false
      → Allowed r.status RequestStatus.cancelled
      → db.find_unique (quota_of r.match_id r.category_requested_id) s.quotas ≡ some q
      → let (result, s') = cancel_request db input s in
        (result ≡ ok (with_status RequestStatus.cancelled r))
        × (db.find_unique (request_key r.id) s'.requests
            ≡ some (with_status RequestStatus.cancelled r))
        × (db.find_unique (quota_of r.match_id r.category_requested_id) s'.quotas
            ≡ some
                (record q { consumed = if took_slot r.status then q.consumed - 1 else q.consumed }))
        × (s'.events ≡ request_cancelled r.id r.status ∷ s.events)
  cancel_request_lem input s r q found owned allowed found_q =
      let (rows, went, after) = cancel_request_run input s r q found owned allowed found_q in
      rw went (
        refl,
        find_unique-update_rows_self db (request_key r.id) (with_status RequestStatus.cancelled)
            s.requests r (λ x h. h) (found_by_id db input.request_id r s found),
        after ∙ ap some (freed r.status q),
        refl,
      )

  -- Without a quota, the cancellation of a request that holds a slot throws, but the request is
  -- cancelled all the same, and nobody is told.
  pub cancel_request_no_quota :
      (input : CancelRequestInput) (s : Database) (r : AccreditationRequest)
      → db.find_unique (request_key input.request_id) s.requests ≡ some r
      → is_foreign input.requester_id r.requester_id ≡ false
      → Allowed r.status RequestStatus.cancelled
      → holds_slot r.status ≡ true
      → db.find_unique (quota_of r.match_id r.category_requested_id) s.quotas ≡ none
      → let (result, s') = cancel_request db input s in
        (result ≡ err (throws ErrorCode.quota_not_configured ErrorKind.conflict))
        × (db.find_unique (request_key r.id) s'.requests
            ≡ some (with_status RequestStatus.cancelled r))
        × (s'.events ≡ s.events)
  cancel_request_no_quota input s r found owned allowed held missing =
      let went =
        begun input s r found owned allowed
        ∙ when-true (release_slot db r.match_id r.category_requested_id) (announce r)
            (cancelled_state input r s) held
        ∙ then_err (release_slot db r.match_id r.category_requested_id) (λ u. announce r)
            (cancelled_state input r s)
            (release_slot_missing db r.match_id r.category_requested_id (cancelled_state input r s)
              missing) in
      rw went (
        refl,
        find_unique-update_rows_self db (request_key r.id) (with_status RequestStatus.cancelled)
            s.requests r (λ x h. h) (found_by_id db input.request_id r s found),
        refl,
      )
