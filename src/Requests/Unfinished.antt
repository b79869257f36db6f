-- ===== src/Requests/Unfinished.antt =====
-- A validation that stops before its badge: decide-request.usecase.ts, where the generation throws.
use fsf_acreditation_backend.Base.{
  ◌≡◌, refl, ◌+◌, ◌∙◌, false, none, some, [], get_or, if◌then◌else◌,
}
use fsf_acreditation_backend.Kernel.Errors.{Failure}
use fsf_acreditation_backend.Store.{
  Prisma, Database, err, then_ok, then_err, Env, AccreditationRequest, MatchCategoryQuota, Match,
  Text, RequestStatus, request_key, match_key, quota_of, find_unique-update_rows_self,
}
use fsf_acreditation_backend.Quotas.Laws.{Distinct}
use fsf_acreditation_backend.Accreditations.Service.{
  Crypto, collides, zones_known, generate_accreditation,
}
use fsf_acreditation_backend.Accreditations.Issue.{
  new_badge, free_badge_number, generate_accreditation_unknown_zone,
}
use fsf_acreditation_backend.Requests.Machine.{Allowed}
use fsf_acreditation_backend.Requests.Effects.{found_by_id}
use fsf_acreditation_backend.Requests.Decide.{
  validate, DecideRequestInput, decided, reserve_quota_or_throw, write_decision, generate_badge,
  carry_out, decide_request,
}
use fsf_acreditation_backend.Requests.Verdicts.{past_guards}
use fsf_acreditation_backend.Requests.Validation.{validated_state}
use fsf_acreditation_backend.Requests.Balance.{Passes, guard-Passes}

module _ (db : Prisma) where
  -- A validation that the transitions and the quota let pass, where the match exists, one of the
  -- numbers drawn is free and the badge clashes with none, but a zone asked for is not stored, throws
  -- half way: the request is left validated, its slot is taken unless the quota was overridden, and
  -- no badge is written.
  pub decide_request_unknown_zone :
      (crypto : Crypto) (env : Env) (input : DecideRequestInput) (s : Database)
      (r : AccreditationRequest) (q : MatchCategoryQuota) (m : Match) (number : Text)
      → db.find_unique (request_key input.request_id) s.requests ≡ some r
      → Allowed r.status RequestStatus.validated
      → input.status ≡ validate
      → Distinct s.quotas
      → db.find_unique (quota_of r.match_id r.category_requested_id) s.quotas ≡ some q
      → Passes input q
      → db.find_unique (match_key r.match_id) s.matches ≡ some m
      → free_badge_number db env s.accreditations ≡ some number
      → db.find_first
          (collides (new_badge crypto env r m number (get_or input.zone_ids []) input.assignment))
          s.accreditations
        ≡ none
      → zones_known db (get_or input.zone_ids []) s.zones ≡ false
      → let (result, s') = decide_request db crypto env input s in
        (result ≡ err Failure.foreign_key_violation)
        × ((left : AccreditationRequest) × (db.find_unique (request_key r.id) s'.requests
              ≡ some left)
            × (left.status ≡ RequestStatus.validated))
        × (db.find_unique (quota_of r.match_id r.category_requested_id) s'.quotas
            ≡ some (if input.override_quota then q else record q { consumed = q.consumed + 1 }))
        × (s'.accreditations ≡ s.accreditations)
  unfolding carry_out write_decision generate_badge
  decide_request_unknown_zone crypto env input s r q m number found allowed is_validate distinct
        found_q passes found_m free fresh unknown =
      let (rows, guard, row) = guard-Passes db input s r q distinct found_q passes in
      let t = validated_state db env input r rows s in
      let d = decided env.now input r in
      let ids = get_or input.zone_ids [] in
      let stored =
        find_unique-update_rows_self db (request_key r.id) (decided env.now input) s.requests r
          (λ x h. h) (found_by_id db input.request_id r s found) in
      let stopped =
        generate_accreditation_unknown_zone db crypto env ids input.assignment t d m number stored
          found_m free fresh unknown in
      let carried : carry_out db crypto env r input validate s
          ≡ generate_badge db crypto env r input t =
        then_ok (reserve_quota_or_throw db r input) _ s guard in
      let thrown : generate_badge db crypto env r input t ≡ (err Failure.foreign_key_violation, t) =
        then_err (generate_accreditation db crypto env r.id ids input.assignment) _ t stopped in
      let went : decide_request db crypto env input s ≡ (err Failure.foreign_key_violation, t) =
        past_guards db crypto env input validate s r found is_validate allowed ∙ carried ∙ thrown in
      rw went (refl, (d, stored, rw is_validate refl), row, refl)
