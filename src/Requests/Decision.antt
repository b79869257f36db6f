-- ===== src/Requests/Decision.antt =====
-- What a decision and a draft do to the table of requests.
use fsf_acreditation_backend.Base.{◌≡◌, refl, ap, Option, none, some, [], arith, get_or}
use fsf_acreditation_backend.Store.{
  Prisma, Database, Env, or_throw, throw_if, or_throw_rule, read_rule, AccreditationRequest,
  RequestStatus, request_key, find_unique-update_rows_self,
}
use fsf_acreditation_backend.Competitions.Matches.{get_match}
use fsf_acreditation_backend.Competitions.Reads.{get_match-Reads}
use fsf_acreditation_backend.Quotas.Service.{get_category}
use fsf_acreditation_backend.Quotas.Frame.{get_category-Reads, reserve_slot-requests}
use fsf_acreditation_backend.Accreditations.Service.{Crypto, generate_accreditation}
use fsf_acreditation_backend.Accreditations.Frame.{generate_accreditation_frame}
use fsf_acreditation_backend.Requests.Status.{request_transitions}
use fsf_acreditation_backend.Requests.Machine.{Allowed, assert_rule, ⟶*_one, here}
use fsf_acreditation_backend.Requests.Rows.{
  Continues, RowsContinue-refl, RowsContinue-eq, RowsContinue-trans, RowsContinue-update,
  RowsContinue-map, RowsContinue-create,
}
use fsf_acreditation_backend.Requests.Effects.{
  Keeps, keep_through, found_by_id, with_status-Continues,
}
use fsf_acreditation_backend.Requests.Transition.{with_status}
use fsf_acreditation_backend.Requests.Draft.{
  SaveDraftInput, redraft, new_draft, generate_unique_reference, write_draft, save_draft,
}
use fsf_acreditation_backend.Requests.Decide.{
  Verdict, validate, reject, verdict_status, DecideRequestInput, decided, reserve_quota_or_throw,
  generate_badge, carry_out, decide_request,
}

badge-Allowed :
    (a : RequestStatus) → a ≡ RequestStatus.validated → Allowed a RequestStatus.badge_generated
unfolding request_transitions
badge-Allowed a e = ground arith

module _ (db : Prisma) where
  pub reserve_quota_or_throw-requests :
      (r : AccreditationRequest) (input : DecideRequestInput) (s : Database)
      → (reserve_quota_or_throw db r input s).1.requests ≡ s.requests
  unfolding reserve_quota_or_throw throw_if
  reserve_quota_or_throw-requests r input s =
      ground (arith, reserve_slot-requests db r.match_id r.category_requested_id s)

  module _ (crypto : Crypto) (env : Env) (input : DecideRequestInput)
      (r : AccreditationRequest) where
    decided-Continues :
        Allowed r.status (verdict_status input.status) → Continues r (decided env.now input r)
    decided-Continues allowed = record {
      path = ⟶*_one allowed;
      id = refl;
      owner = refl;
      same_match = refl;
      reference = refl;
    }

    generate_badge-Keeps :
        (s : Database)
        → db.find_unique (request_key r.id) s.requests ≡ some (decided env.now input r)
        → input.status ≡ validate
        → Keeps db s (generate_badge db crypto env r input s)
    unfolding generate_badge
    generate_badge-Keeps s found e =
        let g =
          generate_accreditation db crypto env r.id (get_or input.zone_ids []) input.assignment in
        let same =
          (generate_accreditation_frame db crypto env r.id (get_or input.zone_ids [])
            input.assignment s).0 in
        keep_through db s g _ s same (RowsContinue-refl db s.requests) λ a u eq.
          RowsContinue-trans db (RowsContinue-eq db eq) (
            RowsContinue-update db r.id (with_status RequestStatus.badge_generated) u.requests
              (decided env.now input r) (λ x. refl) (rw eq found)
              (with_status-Continues RequestStatus.badge_generated (decided env.now input r)
                (badge-Allowed _ (ap verdict_status e))))

    carry_out-Keeps :
        (v : Verdict) (s : Database)
        → input.status ≡ v
        → db.find_unique (request_key r.id) s.requests ≡ some r
        → Allowed r.status (verdict_status input.status)
        → Keeps db s (carry_out db crypto env r input v s)
    unfolding carry_out
    carry_out-Keeps reject s e found allowed =
        RowsContinue-update db r.id (decided env.now input) s.requests r (λ x. refl) found
          (decided-Continues allowed)
    carry_out-Keeps validate s e found allowed =
        keep_through db s (reserve_quota_or_throw db r input) _ s
          (reserve_quota_or_throw-requests r input s) (RowsContinue-refl db s.requests)
          λ a u eq.
            RowsContinue-trans db
              (RowsContinue-trans db (RowsContinue-eq db eq) (
                RowsContinue-update db r.id (decided env.now input) u.requests r (λ x. refl)
                  (rw eq found) (decided-Continues allowed)))
              (generate_badge-Keeps _
                (find_unique-update_rows_self db (request_key r.id) (decided env.now input)
                  u.requests r (λ x t. t) (rw eq found))
                e)

  pub decide_request-Keeps :
      (crypto : Crypto) (env : Env) (input : DecideRequestInput) (s : Database)
      → Keeps db s (decide_request db crypto env input s)
  unfolding decide_request
  decide_request-Keeps crypto env input s =
      let same = RowsContinue-refl db s.requests in
      or_throw_rule (Keeps db s) _ _ _ s (λ e. same)
        λ r found. assert_rule (Keeps db s) _ _ _ s same λ allowed.
          carry_out-Keeps crypto env input r input.status s refl
            (found_by_id db input.request_id r s found) allowed

  pub generate_unique_reference-Reads :
      (env : Env) (s : Database) → (generate_unique_reference db env s).1 ≡ s
  unfolding generate_unique_reference or_throw
  generate_unique_reference-Reads env s = ground arith

  redraft-Continues :
      (input : SaveDraftInput) (r : AccreditationRequest) → Continues r (redraft input r)
  redraft-Continues input r = record {
    path = here;
    id = refl;
    owner = refl;
    same_match = refl;
    reference = refl;
  }

  write_draft-Keeps :
      (env : Env) (input : SaveDraftInput) (existing : Option AccreditationRequest) (s : Database)
      → db.find_unique (request_key env.new_id) s.requests ≡ none
      → Keeps db s (write_draft db env input existing s)
  unfolding write_draft
  write_draft-Keeps env input (some existing) s fresh =
      RowsContinue-map db (request_key existing.id) (redraft input) s.requests
        (redraft-Continues input)
  write_draft-Keeps env input none s fresh =
      read_rule (Keeps db s) (generate_unique_reference db env) _ s
        (generate_unique_reference-Reads env) (λ e h. RowsContinue-refl db s.requests)
        λ reference h. RowsContinue-create db (new_draft env input reference) s.requests fresh

  -- A new draft needs an identifier that no request has.
  pub save_draft-Keeps :
      (env : Env) (input : SaveDraftInput) (s : Database)
      → db.find_unique (request_key env.new_id) s.requests ≡ none
      → Keeps db s (save_draft db env input s)
  unfolding save_draft
  save_draft-Keeps env input s fresh =
      let same = RowsContinue-refl db s.requests in
      read_rule (Keeps db s) (get_match db input.match_id) _ s (get_match-Reads db input.match_id)
        (λ e h. same)
        λ m h.
          read_rule (Keeps db s) (get_category db input.category_requested_id) _ s
            (get_category-Reads db input.category_requested_id) (λ e h. same)
            λ c h. write_draft-Keeps env input _ s fresh
