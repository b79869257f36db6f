-- ===== src/Requests/Balance.antt =====
-- The counter of a quota over a validation and a cancellation of the same request.
use fsf_acreditation_backend.Base.{
  ◌-◌, ◌<◌, ◌≡◌, refl, sym, ap, subst, ◌∙◌, true, false, ◌⊎◌, inl, inr, none, some, [], List, arith,
  get_or, if◌then◌else◌,
}
use fsf_acreditation_backend.Store.{
  Prisma, Database, ok, throw_if, Env, AccreditationRequest, MatchCategoryQuota, Match, Text,
  RequestStatus, request_key, quota_of, match_key,
}
use fsf_acreditation_backend.Quotas.Service.{add_one}
use fsf_acreditation_backend.Quotas.Laws.{Distinct, reserve_slot_lem}
use fsf_acreditation_backend.Accreditations.Service.{Crypto, collides, zones_known, zones_clash}
use fsf_acreditation_backend.Accreditations.Issue.{new_badge, free_badge_number}
use fsf_acreditation_backend.Requests.Machine.{Allowed}
use fsf_acreditation_backend.Requests.Status.{request_transitions}
use fsf_acreditation_backend.Requests.Transition.{with_status}
use fsf_acreditation_backend.Requests.Cancel.{CancelRequestInput, cancel_request}
use fsf_acreditation_backend.Requests.Cancellation.{cancel_request_lem}
use fsf_acreditation_backend.Requests.Decide.{
  validate, DecideRequestInput, decided, reserve_quota_or_throw, decide_request,
}
use fsf_acreditation_backend.Requests.Validation.{decide_request_validates}

-- What lets a validation pass the quota: an administrator's override, or room without one.
abbrev pub Passes : DecideRequestInput → MatchCategoryQuota → Type 0
Passes input q =
    ((input.override_quota ≡ true) × (input.actor_is_admin ≡ true))
    ⊎ ((input.override_quota ≡ false) × (q.consumed < q.quota_total))

module _ (db : Prisma) where
  pub guard-Passes :
      (input : DecideRequestInput) (s : Database) (r : AccreditationRequest)
      (q : MatchCategoryQuota)
      → Distinct s.quotas
      → db.find_unique (quota_of r.match_id r.category_requested_id) s.quotas ≡ some q
      → Passes input q
      → (rows : List MatchCategoryQuota) × (reserve_quota_or_throw db r input s
          ≡ (ok tt, record s { quotas = rows }))
        × (db.find_unique (quota_of r.match_id r.category_requested_id) rows
            ≡ some (if input.override_quota then q else add_one q))
  unfolding reserve_quota_or_throw throw_if
  guard-Passes input s r q distinct found_q (inl (override, admin)) =
      (s.quotas, rw (override, admin) refl, rw override found_q)
  guard-Passes input s r q distinct found_q (inr (plain, room)) =
      let (rows, e, after) =
        reserve_slot_lem db r.match_id r.category_requested_id s q distinct found_q in
      (rows, rw (plain, e) (ground arith), rw plain (after ∙ ap some (ground arith)))

  badge_cancellable : Allowed RequestStatus.badge_generated RequestStatus.cancelled
  unfolding request_transitions
  badge_cancellable = ground arith

  -- A request is validated, by an override or with room, with zones that are stored and each named
  -- once, and gets its badge; then the staff cancels it. Both calls return. After a validation
  -- without an override the counter of the quota is back where it was; after one with an override,
  -- which took no slot, it is one lower, unless it was 0.
  pub decide-cancel :
      (crypto : Crypto) (env : Env) (input : DecideRequestInput) (undo : CancelRequestInput)
      (s : Database) (r : AccreditationRequest) (q : MatchCategoryQuota) (m : Match) (number : Text)
      → db.find_unique (request_key input.request_id) s.requests ≡ some r
      → Allowed r.status RequestStatus.validated
      → input.status ≡ validate
      → Distinct s.quotas
      → db.find_unique (quota_of r.match_id r.category_requested_id) s.quotas ≡ some q
      → Passes input q
      → db.find_unique (match_key r.match_id) s.matches ≡ some m
      → free_badge_number db env s.accreditations ≡ some number
      → db.find_first
          (collides (new_badge crypto env r m number (get_or input.zone_ids []) input.assignment))
          s.accreditations
        ≡ none
      → zones_known db (get_or input.zone_ids []) s.zones ≡ true
      → zones_clash db env.new_id (get_or input.zone_ids []) s.accreditation_zones ≡ false
      → undo.request_id ≡ r.id
      → undo.requester_id ≡ none
      → let s' = (decide_request db crypto env input s).1 in
        let (result, s'') = cancel_request db undo s' in
        ((decide_request db crypto env input s).0
          ≡ ok (with_status RequestStatus.badge_generated (decided env.now input r)))
        × (result
            ≡ ok (
                with_status RequestStatus.cancelled
                  (with_status RequestStatus.badge_generated (decided env.now input r))))
        × (db.find_unique (quota_of r.match_id r.category_requested_id) s''.quotas
            ≡ some (if input.override_quota then record q { consumed = q.consumed - 1 } else q))
  decide-cancel crypto env input undo s r q m number found allowed is_validate distinct found_q
        passes found_m free fresh known apart same staff =
      let (rows, guard, row) = guard-Passes input s r q distinct found_q passes in
      let (returned, stored, badge, quotas) =
        decide_request_validates db crypto env input s r m number rows found allowed is_validate
          guard found_m free fresh known apart in
      let s' = (decide_request db crypto env input s).1 in
      let after = with_status RequestStatus.badge_generated (decided env.now input r) in
      let (result, cancelled, freed, event) =
        cancel_request_lem db undo s' after (if input.override_quota then q else add_one q)
          (subst (λ k. db.find_unique (request_key k) s'.requests ≡ some after) (sym same) stored)
          (rw staff refl) badge_cancellable
          (subst
            (λ t.
              db.find_unique (quota_of r.match_id r.category_requested_id) t
              ≡ some (if input.override_quota then q else add_one q))
            (sym quotas) row) in
      (returned, result, freed ∙ ap some (ground arith))
