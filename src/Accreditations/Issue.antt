-- ===== src/Accreditations/Issue.antt =====
-- The badge that a generation writes.
use fsf_acreditation_backend.Base.{
  ◌+◌, ◌/◌, ◌≡◌, refl, ap, ◌∙◌, Option, none, some, List, ◌∷◌, is_some, true, false, not, ◌==◌,
  list_eq, nat_eq,
}
use fsf_acreditation_backend.Kernel.Errors.{Failure}
use fsf_acreditation_backend.Store.{
  Prisma, Database, ok, or_throw, or_throw-some, throw_if-false, throw_if-true, err, then_ok, Uuid,
  Text, Accreditation, AccreditationStatus, AccreditationRequest, Match, Env, request_key,
  match_key, accreditation_generated,
}
use fsf_acreditation_backend.Competitions.Matches.{get_match}
use fsf_acreditation_backend.Competitions.Reads.{get_match_found}
use fsf_acreditation_backend.Accreditations.Numbering.{candidate, badge_prefix, first_free}
use fsf_acreditation_backend.Accreditations.Service.{
  Crypto, Assignment, default_validity, collides, generate_badge_number, create_badge_zones,
  zones_known, zones_clash, generate_accreditation,
}

-- The badge of a request: active, with the end of its validity one day after the kickoff.
abbrev pub new_badge :
    Crypto → Env → AccreditationRequest → Match → Text → List Uuid → Assignment → Accreditation
new_badge crypto env r m number zone_ids options = record {
  id = env.new_id;
  request_id = r.id;
  number = number;
  status = AccreditationStatus.active;
  qr_token_hash = crypto.hash env.token;
  issued_at = env.now;
  expires_at = m.kickoff_at + default_validity;
  revoked_at = none;
  revoked_by_id = none;
  revocation_reason = none;
  assigned_booth_number = options.assigned_booth_number;
  assigned_flash_slot = options.assigned_flash_slot;
  crypto_signature = crypto.sign (record {
    accreditation_id = r.id;
    number = number;
    reference = r.unique_reference;
    match_id = r.match_id;
    zone_ids = zone_ids;
    booth_number = options.assigned_booth_number;
    flash_slot = options.assigned_flash_slot;
    issued_at = env.now / 1000;
    expires_at = (m.kickoff_at + default_validity) / 1000;
  });
}

module _ (db : Prisma) where
  -- The number that the draws of a call lead to.
  abbrev pub free_badge_number : Env → List Accreditation → Option Text
  free_badge_number env rows =
      first_free 5 (λ n. is_some (db.find_unique (λ a. a.number == n) rows))
        (candidate badge_prefix env.year) env.draw 0

  number_found :
      (env : Env) (s : Database) (number : Text)
      → free_badge_number env s.accreditations ≡ some number
      → generate_badge_number db env s ≡ (ok number, s)
  unfolding generate_badge_number or_throw
  number_found env s number free = rw free refl

  -- The database with a badge and its zones.
  abbrev pub badge_written : Database → Accreditation → List Uuid → Uuid → Database
  badge_written s a zone_ids requester_id = record s {
    accreditations = db.create a s.accreditations;
    accreditation_zones = create_badge_zones db a.id zone_ids s.accreditation_zones;
    events = accreditation_generated a.id a.request_id requester_id ∷ s.events;
  }

  -- With a free number, a badge that clashes with none and zones that are stored, a generation
  -- writes that badge.
  pub generate_accreditation_found :
      (crypto : Crypto) (env : Env) (zone_ids : List Uuid) (options : Assignment) (s : Database)
      (r : AccreditationRequest) (m : Match) (number : Text)
      → db.find_unique (request_key r.id) s.requests ≡ some r
      → db.find_unique (match_key r.match_id) s.matches ≡ some m
      → free_badge_number env s.accreditations ≡ some number
      → db.find_first (collides (new_badge crypto env r m number zone_ids options)) s.accreditations
        ≡ none
      → zones_known db zone_ids s.zones ≡ true
      → zones_clash db env.new_id zone_ids s.accreditation_zones ≡ false
      → generate_accreditation db crypto env r.id zone_ids options s ≡ (
        ok (new_badge crypto env r m number zone_ids options),
        badge_written s (new_badge crypto env r m number zone_ids options) zone_ids r.requester_id,
      )
  unfolding generate_accreditation
  generate_accreditation_found crypto env zone_ids options s r m number found found_m free fresh
        known apart =
      or_throw-some _ _ s found
      ∙ then_ok (get_match db r.match_id) _ s (get_match_found db r.match_id s m found_m)
      ∙ then_ok (generate_badge_number db env) _ s (number_found env s number free)
      ∙ throw_if-false _ _ s (ap is_some fresh)
      ∙ throw_if-false _ _ s (ap not known)
      ∙ throw_if-false _ _ s apart

  -- With a zone that is not stored, a generation writes nothing.
  pub generate_accreditation_unknown_zone :
      (crypto : Crypto) (env : Env) (zone_ids : List Uuid) (options : Assignment) (s : Database)
      (r : AccreditationRequest) (m : Match) (number : Text)
      → db.find_unique (request_key r.id) s.requests ≡ some r
      → db.find_unique (match_key r.match_id) s.matches ≡ some m
      → free_badge_number env s.accreditations ≡ some number
      → db.find_first (collides (new_badge crypto env r m number zone_ids options)) s.accreditations
        ≡ none
      → zones_known db zone_ids s.zones ≡ false
      → generate_accreditation db crypto env r.id zone_ids options s
        ≡ (err Failure.foreign_key_violation, s)
  unfolding generate_accreditation
  generate_accreditation_unknown_zone crypto env zone_ids options s r m number found found_m free
        fresh unknown =
      or_throw-some _ _ s found
      ∙ then_ok (get_match db r.match_id) _ s (get_match_found db r.match_id s m found_m)
      ∙ then_ok (generate_badge_number db env) _ s (number_found env s number free)
      ∙ throw_if-false _ _ s (ap is_some fresh)
      ∙ throw_if-true _ _ s (ap not unknown)
