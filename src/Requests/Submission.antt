-- ===== src/Requests/Submission.antt =====
-- When a draft can be submitted, and what its submission writes.
use mathlib.Core.Option.{none-ne-some}
use mathlib.Core.Bool.{true≢false}
use fsf_acreditation_backend.Base.{
  ◌≡◌, ◌≢◌, ◌↔◌, ◌⊎◌, refl, sym, ap, ◌∙◌, Bool, true, not, nat_eq, none, some, List, [], ◌∷◌, arith,
  find, All, Bool-cases, Option-cases, inl, inr,
}
use fsf_acreditation_backend.Store.{
  Prisma, Database, ok, err, Outcome, or_throw_rule, throw_if_rule, read_rule, or_throw-some,
  throw_if-false, then_ok, Instant, AccreditationRequest, RequestStatus, request_status_eq, Match,
  request_key, match_key, request_submitted, find_unique-update_rows_self,
}
use fsf_acreditation_backend.Kernel.Errors.{Failure}
use fsf_acreditation_backend.Competitions.Matches.{get_match, assert_accepting_requests}
use fsf_acreditation_backend.Competitions.Reads.{
  get_match-Reads, assert_accepting_requests-Reads, get_match_found, get_match_only,
}
use fsf_acreditation_backend.Competitions.Window.{Accepting, assert_accepting_requests_iff}
use fsf_acreditation_backend.Requests.Status.{request_transitions, assert_transition_allowed}
use fsf_acreditation_backend.Requests.Machine.{Allowed, assert_rule}
use fsf_acreditation_backend.Requests.Effects.{found_by_id}
use fsf_acreditation_backend.Requests.Submit.{
  SubmitRequestInput, is_duplicate_of, submitted_at_of, submit_request,
}

-- Only a draft can be submitted.
submit-Allowed : (a : RequestStatus) → Allowed a RequestStatus.submitted ↔ (a ≡ RequestStatus.draft)
unfolding request_transitions
submit-Allowed a = (λ h. ground arith, λ h. ground arith)

-- Another request of the same requester for the same match, neither rejected nor cancelled.
abbrev pub IsTwin : AccreditationRequest → AccreditationRequest → Type 0
IsTwin r x =
    (x.requester_id ≡ r.requester_id)
    × (x.match_id ≡ r.match_id)
    × (x.id ≢ r.id)
    × (x.status ≢ RequestStatus.rejected)
    × (x.status ≢ RequestStatus.cancelled)

duplicate-IsTwin : (r x : AccreditationRequest) → (is_duplicate_of r x ≡ true) ↔ IsTwin r x
duplicate-IsTwin r x = (
  λ h. (ground arith, ground arith, λ e. ground arith, λ e. ground arith, λ e. ground arith),
  λ (owner, match, other, open_one, live). ground arith,
)

none_fits :
    (P : AccreditationRequest → Type 0) (p : AccreditationRequest → Bool)
    (xs : List AccreditationRequest)
    → ((x : AccreditationRequest) → P x → p x ≡ true)
    → find p xs ≡ none
    → All (λ x. ¬ P x) xs
unfolding find
none_fits P p [] h e = tt
none_fits P p (x ∷ xs) h e = elim (Bool-cases (p x)) [
  | inl y ↦ absurd (none-ne-some x (sym (rw y at e)))
  | inr y ↦ (λ fits. absurd (true≢false (sym (h x fits) ∙ y)), none_fits P p xs h (rw y at e))
]

module _ (db : Prisma) where
  -- A submission that throws has written nothing and published nothing.
  pub submit_request_refused :
      (now : Instant) (input : SubmitRequestInput) (s : Database) (e : Failure)
      → (submit_request db now input s).0 ≡ err e
      → (submit_request db now input s).1 ≡ s
  unfolding submit_request
  submit_request_refused now input s e =
      or_throw_rule P _ _ _ s (λ _ h. refl)
        λ r found.
          throw_if_rule P _ _ _ s (λ _ h. refl)
            λ owned.
              assert_rule P _ _ _ s (λ h. refl)
                λ allowed.
                  read_rule P (get_match db r.match_id) _ s (get_match-Reads db r.match_id)
                    (λ _ _ h. refl)
                    λ m h.
                      read_rule P (assert_accepting_requests now m) _ s
                        (assert_accepting_requests-Reads now m) (λ _ _ h. refl) λ u passed h. cc
    where
      P : Outcome AccreditationRequest → Type 0
      P o = o.0 ≡ err e → o.1 ≡ s

  -- What an accepted submission leaves: the request is submitted as of now, marked with another
  -- live request of its owner for the match if there is one, and one event is published.
  pub record Submitted (now : Instant) (input : SubmitRequestInput) (s : Database)
      (r : AccreditationRequest) : Type 0 where
    pub row : AccreditationRequest
    pub returned : (submit_request db now input s).0 ≡ ok row
    pub stored :
        db.find_unique (request_key r.id) (submit_request db now input s).1.requests ≡ some row
    pub status : row.status ≡ RequestStatus.submitted
    pub date : row.submitted_at ≡ some now
    pub duplicate :
        ((twin : AccreditationRequest) × IsTwin r twin
          × (¬ All (λ x. x ≢ twin) s.requests)
          × (row.duplicate_of_id ≡ some twin.id))
        ⊎ (All (λ x. ¬ IsTwin r x) s.requests × (row.duplicate_of_id ≡ r.duplicate_of_id))
    pub event :
        (submit_request db now input s).1.events ≡ request_submitted r.id r.requester_id ∷ s.events

  mark :
      (now : Instant) (r : AccreditationRequest) (rows : List AccreditationRequest)
      → let row = submitted_at_of now (db.find_first (is_duplicate_of r) rows) r in
        ((twin : AccreditationRequest) × IsTwin r twin
          × (¬ All (λ x. x ≢ twin) rows)
          × (row.duplicate_of_id ≡ some twin.id))
        ⊎ (All (λ x. ¬ IsTwin r x) rows × (row.duplicate_of_id ≡ r.duplicate_of_id))
  mark now r rows = elim (Option-cases (db.find_first (is_duplicate_of r) rows)) [
    | inl e ↦ inr (
      none_fits (IsTwin r) (is_duplicate_of r) rows (λ x. (duplicate-IsTwin r x).1)
          (db.find_first-none (is_duplicate_of r) rows e),
      rw e refl,
    )
    | inr (twin, e) ↦ inl (
      twin,
      (duplicate-IsTwin r twin).0 (db.find_first-true (is_duplicate_of r) rows twin e),
      λ a. db.find_first-All (λ x. x ≢ twin) (is_duplicate_of r) rows twin e a refl,
      rw e refl,
    )
  ]

  -- The owner's submission of a draft, while the match accepts requests, returns: the request is
  -- submitted as of now, marked with a stored request of its owner for the match, another one that
  -- is neither rejected nor cancelled, if there is one, and the submission is published.
  pub submit_request-Submitted :
      (now : Instant) (input : SubmitRequestInput) (s : Database) (r : AccreditationRequest)
      (m : Match)
      → db.find_unique (request_key input.request_id) s.requests ≡ some r
      → r.requester_id ≡ input.requester_id
      → db.find_unique (match_key r.match_id) s.matches ≡ some m
      → r.status ≡ RequestStatus.draft
      → Accepting now m
      → Submitted now input s r
  unfolding submit_request assert_transition_allowed
  submit_request-Submitted now input s r m found owner found_m draft accepting =
      let duplicate = db.find_first (is_duplicate_of r) s.requests in
      let went =
        or_throw-some _ _ s found
        ∙ throw_if-false _ _ s (ground arith)
        ∙ throw_if-false _ _ s (ap not ((submit-Allowed r.status).1 draft))
        ∙ then_ok (get_match db r.match_id) _ s (get_match_found db r.match_id s m found_m)
        ∙ then_ok (assert_accepting_requests now m) _ s
            ((assert_accepting_requests_iff now m s).1 accepting) in
      record {
        row = submitted_at_of now duplicate r;
        returned = ap (λ o. o.0) went;
        stored =
            ap (λ o. db.find_unique (request_key r.id) o.1.requests) went
            ∙ find_unique-update_rows_self db (request_key r.id) (submitted_at_of now duplicate)
                s.requests r (λ x h. h) (found_by_id db input.request_id r s found);
        status = refl;
        date = refl;
        duplicate = mark now r s.requests;
        event = ap (λ o. o.1.events) went;
      }

  -- A submission returns only for a draft of the caller whose match accepts requests.
  pub submit_request_only :
      (now : Instant) (input : SubmitRequestInput) (s : Database) (row : AccreditationRequest)
      → (submit_request db now input s).0 ≡ ok row
      → (r : AccreditationRequest) × (m : Match) × (db.find_unique
            (request_key input.request_id)
            s.requests
          ≡ some r)
        × (db.find_unique (match_key r.match_id) s.matches ≡ some m)
        × (r.requester_id ≡ input.requester_id)
        × (r.status ≡ RequestStatus.draft)
        × Accepting now m
  unfolding submit_request
  submit_request_only now input s row =
      or_throw_rule P _ _ _ s (λ _ h. absurd cc)
        λ r found.
          throw_if_rule P _ _ _ s (λ _ h. absurd cc)
            λ owned.
              assert_rule P _ _ _ s (λ h. absurd cc)
                λ allowed.
                  read_rule P (get_match db r.match_id) _ s (get_match-Reads db r.match_id)
                    (λ _ _ h. absurd cc)
                    λ m got.
                      read_rule P (assert_accepting_requests now m) _ s
                        (assert_accepting_requests-Reads now m) (λ _ _ h. absurd cc)
                        λ u passed h. (
                          r,
                          m,
                          found,
                          get_match_only db r.match_id s m got,
                          ground arith,
                          (submit-Allowed r.status).0 allowed,
                          (assert_accepting_requests_iff now m s).0 passed,
                        )
    where
      P : Outcome AccreditationRequest → Type 0
      P o =
          o.0 ≡ ok row
          → (r : AccreditationRequest) × (m : Match) × (db.find_unique
                (request_key input.request_id) s.requests
              ≡ some r)
            × (db.find_unique (match_key r.match_id) s.matches ≡ some m)
            × (r.requester_id ≡ input.requester_id)
            × (r.status ≡ RequestStatus.draft)
            × Accepting now m
