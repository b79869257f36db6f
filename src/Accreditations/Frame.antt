-- ===== src/Accreditations/Frame.antt =====
-- What the calls of the accreditation service leave alone.
use fsf_acreditation_backend.Base.{◌≡◌, refl, arith, List}
use fsf_acreditation_backend.Store.{
  Prisma, or_throw, Database, Env, Uuid, Outcome, Accreditation, Reads, or_throw_rule, read_rule,
  throw_if_rule,
}
use fsf_acreditation_backend.Competitions.Matches.{get_match}
use fsf_acreditation_backend.Competitions.Reads.{get_match-Reads}
use fsf_acreditation_backend.Accreditations.Service.{
  Crypto, Assignment, generate_badge_number, generate_accreditation,
}

module _ (db : Prisma) where
  pub generate_badge_number-Reads : (env : Env) → Reads (generate_badge_number db env)
  unfolding generate_badge_number or_throw
  generate_badge_number-Reads env s = ground arith

  -- A badge is written beside the request and the quota of its match, not into them.
  pub generate_accreditation_frame :
      (crypto : Crypto) (env : Env) (id : Uuid) (zone_ids : List Uuid) (options : Assignment)
      (s : Database)
      → let s' = (generate_accreditation db crypto env id zone_ids options s).1 in
        (s'.requests ≡ s.requests) × (s'.quotas ≡ s.quotas)
  unfolding generate_accreditation
  generate_accreditation_frame crypto env id zone_ids options s =
      or_throw_rule P _ _ _ s (λ e. (refl, refl))
        λ request found.
          read_rule P (get_match db request.match_id) _ s (get_match-Reads db request.match_id)
            (λ e h. (refl, refl))
            λ m h.
              read_rule P (generate_badge_number db env) _ s (generate_badge_number-Reads env)
                (λ e h. (refl, refl))
                λ number h.
                  throw_if_rule P _ _ _ s (λ e. (refl, refl))
                    (λ e.
                      throw_if_rule P _ _ _ s (λ e. (refl, refl))
                        (λ e. throw_if_rule P _ _ _ s (λ e. (refl, refl)) (λ e. (refl, refl))))
    where
      P : Outcome Accreditation → Type 0
      P r = (r.1.requests ≡ s.requests) × (r.1.quotas ≡ s.quotas)
