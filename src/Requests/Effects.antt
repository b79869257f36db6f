-- ===== src/Requests/Effects.antt =====
-- What each operation does to the table of requests.
use fsf_acreditation_backend.Base.{◌≡◌, refl, sym, ap, subst, ◌∙◌, some, arith}
use fsf_acreditation_backend.Store.{
  Prisma, Database, Outcome, Result, Action, ◌>>=◌, or_throw_rule, throw_if_rule, when_rule,
  then_rule, read_rule, Env, find_unique-true, AccreditationRequest, Uuid, request_key,
  RequestStatus, request_status_eq, Instant,
}
use fsf_acreditation_backend.Requests.Status.{request_transitions}
use fsf_acreditation_backend.Requests.Machine.{Allowed, assert_rule, ⟶*_one}
use fsf_acreditation_backend.Requests.Rows.{
  Continues, RowsContinue, RowsContinue-refl, RowsContinue-update,
}
use fsf_acreditation_backend.Requests.Submit.{
  SubmitRequestInput, submitted_at_of, is_duplicate_of, submit_request,
}
use fsf_acreditation_backend.Competitions.Matches.{get_match, assert_accepting_requests}
use fsf_acreditation_backend.Requests.Complement.{
  RequestComplementInput, ResolveComplementInput, request_complement, resolve_complement,
}
use fsf_acreditation_backend.Requests.Cancel.{CancelRequestInput, cancel_request}
use fsf_acreditation_backend.Competitions.Reads.{get_match-Reads, assert_accepting_requests-Reads}
use fsf_acreditation_backend.Quotas.Service.{release_slot}
use fsf_acreditation_backend.Quotas.Frame.{release_slot-requests}
use fsf_acreditation_backend.Requests.Transition.{TransitionInput, with_status, transition_request}

-- A change of status along the table.
pub with_status-Continues :
    (to : RequestStatus) (r : AccreditationRequest)
    → Allowed r.status to
    → Continues r (with_status to r)
with_status-Continues to r h = record {
  path = ⟶*_one h;
  id = refl;
  owner = refl;
  same_match = refl;
  reference = refl;
}

back_to_review :
    (a : RequestStatus) → a ≡ RequestStatus.info_requested → Allowed a RequestStatus.under_review
unfolding request_transitions
back_to_review a e = ground arith

module _ (db : Prisma) where
  pub found_by_id :
      (id : Uuid) (r : AccreditationRequest) (s : Database)
      → db.find_unique (request_key id) s.requests ≡ some r
      → db.find_unique (request_key r.id) s.requests ≡ some r
  found_by_id id r s found =
      let e : id ≡ r.id = ground (arith, find_unique-true db (request_key id) s.requests r found) in
      subst (λ k. db.find_unique (request_key k) s.requests ≡ some r) e found

  -- The outcome of a call that began at a database.
  abbrev pub Keeps : {A : Type 0} → Database → Outcome A → Type 0
  Keeps s r = RowsContinue db s.requests r.1.requests

  pub transition_request-Keeps :
      (input : TransitionInput) (s : Database) → Keeps s (transition_request db input s)
  unfolding transition_request
  transition_request-Keeps input s =
      or_throw_rule (Keeps s) _ _ _ s (λ e. RowsContinue-refl db s.requests)
        λ r found. assert_rule (Keeps s) _ _ _ s (RowsContinue-refl db s.requests) λ allowed.
          RowsContinue-update db input.request_id (with_status input.to_status) s.requests r
            (λ x. refl) found (with_status-Continues input.to_status r allowed)

  -- A call that leaves the table alone, and what follows it.
  pub keep_through :
      {A B : Type 0} (s : Database) (m : Action A) (k : A → Action B) (t : Database)
      → (m t).1.requests ≡ t.requests
      → RowsContinue db s.requests t.requests
      → ((a : A) (u : Database) → u.requests ≡ t.requests → Keeps s (k a u))
      → Keeps s ((m >>= k) t)
  keep_through {A} s m k t same kept next =
      then_rule (Keeps s) m k t
        (λ e u h. subst (RowsContinue db s.requests) (sym (requests_of h)) kept)
        (λ a u h. next a u (requests_of h))
    where
      requests_of : {r : Result A} {u : Database} → m t ≡ (r, u) → u.requests ≡ t.requests
      requests_of h = sym (ap (λ o. o.1.requests) h) ∙ same

  pub submit_request-Keeps :
      (now : Instant) (input : SubmitRequestInput) (s : Database)
      → Keeps s (submit_request db now input s)
  unfolding submit_request
  submit_request-Keeps now input s =
      let same = RowsContinue-refl db s.requests in
      or_throw_rule (Keeps s) _ _ _ s (λ e. same)
        λ r found.
          throw_if_rule (Keeps s) _ _ _ s (λ e. same)
            λ owned. assert_rule (Keeps s) _ _ _ s same λ allowed.
              read_rule (Keeps s) (get_match db r.match_id) _ s (get_match-Reads db r.match_id)
                (λ e h. same)
                λ m h.
                  read_rule (Keeps s) (assert_accepting_requests now m) _ s
                    (assert_accepting_requests-Reads now m) (λ e h. same)
                    λ u h.
                      RowsContinue-update db r.id
                        (submitted_at_of now (db.find_first (is_duplicate_of r) s.requests))
                        s.requests r (λ x. refl) (found_by_id input.request_id r s found)
                        (record {
                          path = ⟶*_one allowed;
                          id = refl;
                          owner = refl;
                          same_match = refl;
                          reference = refl;
                        })

  pub request_complement-Keeps :
      (env : Env) (input : RequestComplementInput) (s : Database)
      → Keeps s (request_complement db env input s)
  unfolding request_complement
  request_complement-Keeps env input s =
      let same = RowsContinue-refl db s.requests in
      or_throw_rule (Keeps s) _ _ _ s (λ e. same)
        λ r found. assert_rule (Keeps s) _ _ _ s same λ allowed.
          RowsContinue-update db input.request_id (with_status RequestStatus.info_requested)
            s.requests r (λ x. refl) found
            (with_status-Continues RequestStatus.info_requested r allowed)

  pub resolve_complement-Keeps :
      (now : Instant) (input : ResolveComplementInput) (s : Database)
      → Keeps s (resolve_complement db now input s)
  unfolding resolve_complement
  resolve_complement-Keeps now input s =
      let same = RowsContinue-refl db s.requests in
      or_throw_rule (Keeps s) _ _ _ s (λ e. same)
        λ r found.
          throw_if_rule (Keeps s) _ _ _ s (λ e. same)
            λ owned.
              or_throw_rule (Keeps s) _ _ _ s (λ e. same)
                λ c found_c.
                  throw_if_rule (Keeps s) _ _ _ s (λ e. same)
                    λ of_request.
                      when_rule (Keeps s) _ _ _ _
                        (λ open_.
                          RowsContinue-update db input.request_id
                            (with_status RequestStatus.under_review) s.requests r (λ x. refl) found
                            (with_status-Continues RequestStatus.under_review r
                              (back_to_review r.status (ground arith))))
                        (λ closed. same)

  pub cancel_request-Keeps :
      (input : CancelRequestInput) (s : Database) → Keeps s (cancel_request db input s)
  unfolding cancel_request
  cancel_request-Keeps input s =
      let same = RowsContinue-refl db s.requests in
      or_throw_rule (Keeps s) _ _ _ s (λ e. same)
        λ r found.
          throw_if_rule (Keeps s) _ _ _ s (λ e. same)
            λ owned. assert_rule (Keeps s) _ _ _ s same λ allowed.
              let kept =
                RowsContinue-update db r.id (with_status RequestStatus.cancelled) s.requests r
                  (λ x. refl) (found_by_id input.request_id r s found)
                  (with_status-Continues RequestStatus.cancelled r allowed) in
              when_rule (Keeps s) _ _ _ _
                (λ reserved.
                  keep_through s (release_slot db r.match_id r.category_requested_id) _ _
                    (release_slot-requests db r.match_id r.category_requested_id _) kept
                    (λ a u e. subst (RowsContinue db s.requests) (sym e) kept))
                (λ free. kept)
