-- ===== src/Requests/Validation.antt =====
-- A validation that nothing stops: the request, its quota and its badge.
use fsf_acreditation_backend.Base.{
  ◌≡◌, refl, ◌∙◌, nat_eq, true, false, none, some, List, [], ◌∷◌, get_or,
}
use fsf_acreditation_backend.Store.{
  Prisma, Database, ok, then_ok, Env, AccreditationRequest, MatchCategoryQuota, Match, Text,
  RequestStatus, request_status_eq, request_key, match_key, request_decided,
  find_unique-update_rows_self,
}
use fsf_acreditation_backend.Accreditations.Service.{
  Crypto, collides, zones_known, zones_clash, generate_accreditation,
}
use fsf_acreditation_backend.Accreditations.Issue.{
  new_badge, free_badge_number, badge_written, generate_accreditation_found,
}
use fsf_acreditation_backend.Requests.Machine.{Allowed}
use fsf_acreditation_backend.Requests.Effects.{found_by_id}
use fsf_acreditation_backend.Requests.Transition.{with_status}
use fsf_acreditation_backend.Requests.Decide.{
  validate, verdict_status, DecideRequestInput, decided, decision_row, reserve_quota_or_throw,
  write_decision, generate_badge, carry_out, decide_request,
}
use fsf_acreditation_backend.Requests.Verdicts.{past_guards}

module _ (db : Prisma) where
  -- The database after a validation whose quota guard has left another table of quotas.
  abbrev pub validated_state :
      Env
      → DecideRequestInput
      → AccreditationRequest
      → List MatchCategoryQuota
      → Database
      → Database
  validated_state env input r rows s = record s {
    quotas = rows;
    requests = db.update_rows (request_key r.id) (decided env.now input) s.requests;
    decisions =
        db.create (decision_row r input r.status (verdict_status input.status) input.reason)
          s.decisions;
    events =
        request_decided r.id r.requester_id RequestStatus.validated input.reason
          (get_or input.zone_ids [])
        ∷ s.events;
  }

  -- The second transaction, on the database with the badge.
  abbrev badged_state : DecideRequestInput → AccreditationRequest → Database → Database
  badged_state input r u = record u {
    requests =
        db.update_rows (request_key r.id) (with_status RequestStatus.badge_generated) u.requests;
    decisions =
        db.create (decision_row r input RequestStatus.validated RequestStatus.badge_generated none)
          u.decisions;
  }

  -- A validation that the transitions allow and that the quota guard lets pass, where the match
  -- exists, one of the numbers drawn is free, the badge clashes with none and the zones asked for are
  -- stored and each named once, returns: the request ends in the status of a generated badge, and
  -- the badge, active and valid until one day after the kickoff, is written once, in front of the
  -- others.
  pub decide_request_validates :
      (crypto : Crypto) (env : Env) (input : DecideRequestInput) (s : Database)
      (r : AccreditationRequest) (m : Match) (number : Text) (rows : List MatchCategoryQuota)
      → db.find_unique (request_key input.request_id) s.requests ≡ some r
      → Allowed r.status RequestStatus.validated
      → input.status ≡ validate
      → reserve_quota_or_throw db r input s ≡ (ok tt, record s { quotas = rows })
      → db.find_unique (match_key r.match_id) s.matches ≡ some m
      → free_badge_number db env s.accreditations ≡ some number
      → db.find_first
          (collides (new_badge crypto env r m number (get_or input.zone_ids []) input.assignment))
          s.accreditations
        ≡ none
      → zones_known db (get_or input.zone_ids []) s.zones ≡ true
      → zones_clash db env.new_id (get_or input.zone_ids []) s.accreditation_zones ≡ false
      → let (result, s') = decide_request db crypto env input s in
        let after = with_status RequestStatus.badge_generated (decided env.now input r) in
        (result ≡ ok after)
        × (db.find_unique (request_key r.id) s'.requests ≡ some after)
        × (s'.accreditations
            ≡ new_badge crypto env r m number (get_or input.zone_ids []) input.assignment
              ∷ s.accreditations)
        × (s'.quotas ≡ rows)
  unfolding carry_out write_decision generate_badge
  decide_request_validates crypto env input s r m number rows found allowed is_validate guard
        found_m free fresh known apart =
      let t = validated_state env input r rows s in
      let stored =
        find_unique-update_rows_self db (request_key r.id) (decided env.now input) s.requests r
          (λ x h. h) (found_by_id db input.request_id r s found) in
      let d = decided env.now input r in
      let ids = get_or input.zone_ids [] in
      let badge = new_badge crypto env r m number ids input.assignment in
      let u = badge_written db t badge ids r.requester_id in
      let issued =
        generate_accreditation_found db crypto env ids input.assignment t d m number stored found_m
          free fresh known apart in
      let carried : carry_out db crypto env r input validate s
          ≡ generate_badge db crypto env r input t =
        then_ok (reserve_quota_or_throw db r input) _ s guard in
      let badged : generate_badge db crypto env r input t
          ≡ (ok (with_status RequestStatus.badge_generated d), badged_state input r u) =
        then_ok (generate_accreditation db crypto env r.id ids input.assignment) _ t issued in
      let went : decide_request db crypto env input s
          ≡ (ok (with_status RequestStatus.badge_generated d), badged_state input r u) =
        past_guards db crypto env input validate s r found is_validate allowed ∙ carried ∙ badged in
      rw went (
        refl,
        find_unique-update_rows_self db (request_key r.id)
            (with_status RequestStatus.badge_generated) t.requests d (λ x h. h) stored,
        db.create_lem badge s.accreditations,
        refl,
      )
