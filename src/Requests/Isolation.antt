-- ===== src/Requests/Isolation.antt =====
-- A requester never changes a request of another requester.
use fsf_acreditation_backend.Base.{◌≡◌, refl, sym, subst, false, Option, none, some, nat_eq, arith}
use fsf_acreditation_backend.Store.{
  Prisma, Database, Uuid, Instant, Env, RequestStatus, AccreditationRequest, request_key,
  or_throw_rule, throw_if_rule, when_rule, read_rule, request_status_eq,
}
use fsf_acreditation_backend.Accreditations.Service.{is_foreign}
use fsf_acreditation_backend.Competitions.Matches.{get_match, assert_accepting_requests}
use fsf_acreditation_backend.Competitions.Reads.{get_match-Reads, assert_accepting_requests-Reads}
use fsf_acreditation_backend.Quotas.Service.{get_category, release_slot}
use fsf_acreditation_backend.Quotas.Frame.{get_category-Reads, release_slot-requests}
use fsf_acreditation_backend.Requests.Machine.{assert_rule}
use fsf_acreditation_backend.Requests.Effects.{found_by_id}
use fsf_acreditation_backend.Requests.Transition.{with_status}
use fsf_acreditation_backend.Requests.Draft.{
  SaveDraftInput, is_draft_of, redraft, new_draft, write_draft, save_draft,
  generate_unique_reference,
}
use fsf_acreditation_backend.Requests.Decision.{generate_unique_reference-Reads}
use fsf_acreditation_backend.Requests.Submit.{
  SubmitRequestInput, is_duplicate_of, submitted_at_of, submit_request,
}
use fsf_acreditation_backend.Requests.Complement.{ResolveComplementInput, resolve_complement}
use fsf_acreditation_backend.Requests.Cancel.{CancelRequestInput, cancel_request}
use fsf_acreditation_backend.Requests.Ownership.{
  Isolated, OthersStay, OthersStay-refl, OthersStay-update, OthersStay-create, stay_through,
  DistinctIds,
}

module _ (db : Prisma) (owner : Uuid) where
  pub submit_request-Isolated :
      (now : Instant) (input : SubmitRequestInput) (s : Database)
      → input.requester_id ≡ owner
      → Isolated db owner s (submit_request db now input s)
  unfolding submit_request
  submit_request-Isolated now input s mine =
      let P = Isolated db owner s in
      let same = OthersStay-refl db owner s.requests in
      or_throw_rule P _ _ _ s (λ e. same)
        λ r found.
          throw_if_rule P _ _ _ s (λ e. same)
            λ owned. assert_rule P _ _ _ s same λ allowed.
              read_rule P (get_match db r.match_id) _ s (get_match-Reads db r.match_id)
                (λ e h. same)
                λ m h.
                  read_rule P (assert_accepting_requests now m) _ s
                    (assert_accepting_requests-Reads now m) (λ e h. same)
                    λ u h.
                      OthersStay-update db owner r.id
                        (submitted_at_of now (db.find_first (is_duplicate_of r) s.requests))
                        s.requests r (λ x. refl) (found_by_id db input.request_id r s found)
                        (ground arith)

  pub cancel_request-Isolated :
      (input : CancelRequestInput) (s : Database)
      → input.requester_id ≡ some owner
      → Isolated db owner s (cancel_request db input s)
  unfolding cancel_request
  cancel_request-Isolated input s mine =
      let P = Isolated db owner s in
      let same = OthersStay-refl db owner s.requests in
      or_throw_rule P _ _ _ s (λ e. same)
        λ r found.
          throw_if_rule P _ _ _ s (λ e. same)
            λ owned. assert_rule P _ _ _ s same λ allowed.
              let kept =
                OthersStay-update db owner r.id (with_status RequestStatus.cancelled) s.requests r
                  (λ x. refl) (found_by_id db input.request_id r s found)
                  (own input.requester_id r.requester_id mine owned) in
              when_rule P _ _ _ _
                (λ reserved.
                  stay_through db owner s (release_slot db r.match_id r.category_requested_id) _ _
                    (release_slot-requests db r.match_id r.category_requested_id _) kept
                    (λ a u e. subst (OthersStay db owner s.requests) (sym e) kept))
                (λ free. kept)
    where
      own :
          (o : Option Uuid) (holder : Uuid)
          → o ≡ some owner
          → is_foreign o holder ≡ false
          → holder ≡ owner
      own o holder e h = ground arith

  pub resolve_complement-Isolated :
      (now : Instant) (input : ResolveComplementInput) (s : Database)
      → input.requester_id ≡ owner
      → Isolated db owner s (resolve_complement db now input s)
  unfolding resolve_complement
  resolve_complement-Isolated now input s mine =
      let P = Isolated db owner s in
      let same = OthersStay-refl db owner s.requests in
      or_throw_rule P _ _ _ s (λ e. same)
        λ r found.
          throw_if_rule P _ _ _ s (λ e. same)
            λ owned.
              or_throw_rule P _ _ _ s (λ e. same)
                λ c found_c.
                  throw_if_rule P _ _ _ s (λ e. same)
                    λ belongs.
                      when_rule P _ _ _ _
                        (λ open_.
                          OthersStay-update db owner input.request_id
                            (with_status RequestStatus.under_review) s.requests r (λ x. refl) found
                            (ground arith))
                        (λ closed. same)

  write_draft-Isolated :
      (env : Env) (input : SaveDraftInput) (existing : Option AccreditationRequest) (s : Database)
      → ((r : AccreditationRequest)
          → existing ≡ some r
          → (db.find_unique (request_key r.id) s.requests ≡ some r) × (r.requester_id ≡ owner))
      → db.find_unique (request_key env.new_id) s.requests ≡ none
      → Isolated db owner s (write_draft db env input existing s)
  unfolding write_draft
  write_draft-Isolated env input (some r) s mine fresh =
      OthersStay-update db owner r.id (redraft input) s.requests r (λ x. refl) (mine r refl).0
        (mine r refl).1
  write_draft-Isolated env input none s mine fresh =
      read_rule (Isolated db owner s) (generate_unique_reference db env) _ s
        (generate_unique_reference-Reads db env) (λ e h. OthersStay-refl db owner s.requests)
        λ reference h. OthersStay-create db owner (new_draft env input reference) s.requests fresh

  pub save_draft-Isolated :
      (env : Env) (input : SaveDraftInput) (s : Database)
      → input.requester_id ≡ owner
      → DistinctIds db s
      → db.find_unique (request_key env.new_id) s.requests ≡ none
      → Isolated db owner s (save_draft db env input s)
  unfolding save_draft
  save_draft-Isolated env input s mine distinct fresh =
      let P = Isolated db owner s in
      let same = OthersStay-refl db owner s.requests in
      let wanted = is_draft_of input.requester_id input.match_id in
      read_rule P (get_match db input.match_id) _ s (get_match-Reads db input.match_id)
        (λ e h. same)
        λ m h.
          read_rule P (get_category db input.category_requested_id) _ s
            (get_category-Reads db input.category_requested_id) (λ e h. same)
            λ c h.
              write_draft-Isolated env input (db.find_first wanted s.requests) s
                (λ r e. (
                  db.find_first-All (λ x. db.find_unique (request_key x.id) s.requests ≡ some x)
                      wanted s.requests r e distinct,
                  ground (arith, db.find_first-true wanted s.requests r e),
                ))
                fresh
