-- ===== src/Requests/Verdicts.antt =====
-- What a decision on a request does to the request, its quota and its badge.
use fsf_acreditation_backend.Base.{
  ◌≡◌, ◌≤◌, refl, ap, ◌∙◌, true, false, not, nat_eq, some, List, arith, if◌then◌else◌,
}
use fsf_acreditation_backend.Kernel.Errors.{ErrorCode, ErrorKind, Failure, throws}
use fsf_acreditation_backend.Store.{
  Prisma, Database, err, throw_if, or_throw-some, throw_if-false, then_err, Env,
  AccreditationRequest, MatchCategoryQuota, RequestStatus, request_status_eq, request_key, quota_of,
}
use fsf_acreditation_backend.Quotas.Laws.{Distinct, reserved_row, reserve_slot_lem}
use fsf_acreditation_backend.Accreditations.Service.{Crypto}
use fsf_acreditation_backend.Requests.Status.{assert_transition_allowed}
use fsf_acreditation_backend.Requests.Machine.{Allowed}
use fsf_acreditation_backend.Requests.Counters.{carry_out-quotas}
use fsf_acreditation_backend.Requests.Decide.{
  Verdict, validate, reject, verdict_status, DecideRequestInput, reserve_quota_or_throw, carry_out,
  decide_request,
}

-- The row of the quota after a decision: only a validation without an override takes a slot.
abbrev pub charged : DecideRequestInput → Verdict → MatchCategoryQuota → MatchCategoryQuota
charged input validate q = if input.override_quota then q else reserved_row q
charged input reject q = q

module _ (db : Prisma) where
  -- A decision that the transitions allow comes to its two branches.
  pub past_guards :
      (crypto : Crypto) (env : Env) (input : DecideRequestInput) (v : Verdict) (s : Database)
      (r : AccreditationRequest)
      → db.find_unique (request_key input.request_id) s.requests ≡ some r
      → input.status ≡ v
      → Allowed r.status (verdict_status v)
      → decide_request db crypto env input s ≡ carry_out db crypto env r input v s
  unfolding decide_request assert_transition_allowed
  past_guards crypto env input v s r found is_v allowed =
      or_throw-some _ _ s found
      ∙ throw_if-false _ _ s (rw is_v (ap not allowed))
      ∙ ap (λ w. carry_out db crypto env r input w s) is_v

  -- What the guard on the quota leaves of its row, whether it throws or not.
  guard_row :
      (input : DecideRequestInput) (s : Database) (r : AccreditationRequest)
      (q : MatchCategoryQuota)
      → Distinct s.quotas
      → db.find_unique (quota_of r.match_id r.category_requested_id) s.quotas ≡ some q
      → db.find_unique
          (quota_of r.match_id r.category_requested_id)
          (reserve_quota_or_throw db r input s).1.quotas
        ≡ some (if input.override_quota then q else reserved_row q)
  unfolding reserve_quota_or_throw throw_if
  guard_row input s r q distinct found_q =
      let (rows, e, after) =
        reserve_slot_lem db r.match_id r.category_requested_id s q distinct found_q in
      ground (arith, e, after)

  carried_row :
      (crypto : Crypto) (env : Env) (input : DecideRequestInput) (v : Verdict) (s : Database)
      (r : AccreditationRequest) (q : MatchCategoryQuota)
      → Distinct s.quotas
      → db.find_unique (quota_of r.match_id r.category_requested_id) s.quotas ≡ some q
      → db.find_unique
          (quota_of r.match_id r.category_requested_id)
          (carry_out db crypto env r input v s).1.quotas
        ≡ some (charged input v q)
  unfolding carry_out
  carried_row crypto env input validate s r q distinct found_q =
      ap (db.find_unique (quota_of r.match_id r.category_requested_id))
        (carry_out-quotas db crypto env r input s)
      ∙ guard_row input s r q distinct found_q
  carried_row crypto env input reject s r q distinct found_q = found_q

  -- On every decision that the transitions allow, returned or thrown, the counter of the request's
  -- quota goes up by one if the decision is a validation without an override and there is room,
  -- and otherwise stays, and the total stays.
  pub decide_request-charged :
      (crypto : Crypto) (env : Env) (input : DecideRequestInput) (s : Database)
      (r : AccreditationRequest) (q : MatchCategoryQuota)
      → db.find_unique (request_key input.request_id) s.requests ≡ some r
      → Allowed r.status (verdict_status input.status)
      → Distinct s.quotas
      → db.find_unique (quota_of r.match_id r.category_requested_id) s.quotas ≡ some q
      → db.find_unique
          (quota_of r.match_id r.category_requested_id)
          (decide_request db crypto env input s).1.quotas
        ≡ some (charged input input.status q)
  decide_request-charged crypto env input s r q found allowed distinct found_q =
      ap (λ o. db.find_unique (quota_of r.match_id r.category_requested_id) o.1.quotas)
        (past_guards crypto env input input.status s r found refl allowed)
      ∙ carried_row crypto env input input.status s r q distinct found_q

  refused_guard :
      (crypto : Crypto) (env : Env) (input : DecideRequestInput) (s : Database)
      (r : AccreditationRequest) {e : Failure} {s' : Database}
      → reserve_quota_or_throw db r input s ≡ (err e, s')
      → carry_out db crypto env r input validate s ≡ (err e, s')
  unfolding carry_out
  refused_guard crypto env input s r h = then_err (reserve_quota_or_throw db r input) _ s h

  -- A validation without an override, when the quota is used up, throws that it is exceeded, and
  -- nothing but the table of quotas can have changed, in which the row is as before.
  pub decide_request_no_room :
      (crypto : Crypto) (env : Env) (input : DecideRequestInput) (s : Database)
      (r : AccreditationRequest) (q : MatchCategoryQuota)
      → db.find_unique (request_key input.request_id) s.requests ≡ some r
      → Allowed r.status RequestStatus.validated
      → input.status ≡ validate
      → input.override_quota ≡ false
      → Distinct s.quotas
      → db.find_unique (quota_of r.match_id r.category_requested_id) s.quotas ≡ some q
      → q.quota_total ≤ q.consumed
      → (rows : List MatchCategoryQuota) × (decide_request db crypto env input s ≡ (
        err (throws ErrorCode.quota_exceeded ErrorKind.quota_exceeded),
        record s { quotas = rows },
      ))
        × (db.find_unique (quota_of r.match_id r.category_requested_id) rows ≡ some q)
  unfolding reserve_quota_or_throw throw_if
  decide_request_no_room crypto env input s r q found allowed is_validate plain distinct found_q
        full =
      let (rows, e, after) =
        reserve_slot_lem db r.match_id r.category_requested_id s q distinct found_q in
      let refused = refused_guard crypto env input s r (rw (plain, e) (ground arith)) in
      (
        rows,
        past_guards crypto env input validate s r found is_validate allowed ∙ refused,
        after ∙ ap some (ground arith),
      )

  -- An override by somebody who is no administrator is refused, and changes nothing.
  decide_request_forbidden :
      (crypto : Crypto) (env : Env) (input : DecideRequestInput) (s : Database)
      (r : AccreditationRequest)
      → db.find_unique (request_key input.request_id) s.requests ≡ some r
      → Allowed r.status RequestStatus.validated
      → input.status ≡ validate
      → input.override_quota ≡ true
      → input.actor_is_admin ≡ false
      → decide_request db crypto env input s
        ≡ (err (throws ErrorCode.forbidden_scope ErrorKind.forbidden), s)
  unfolding reserve_quota_or_throw throw_if
  decide_request_forbidden crypto env input s r found allowed is_validate override plain =
      past_guards crypto env input validate s r found is_validate allowed
      ∙ refused_guard crypto env input s r (rw (override, plain) refl)
