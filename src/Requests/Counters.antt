-- ===== src/Requests/Counters.antt =====
-- What the calls on requests do to the counters of the quotas.
use fsf_acreditation_backend.Base.{◌≡◌, refl, sym, ap, ◌∙◌, Option, none, some, [], arith, get_or}
use fsf_acreditation_backend.Store.{
  Prisma, Database, Env, Instant, Outcome, throw_if, or_throw_rule, throw_if_rule, when_rule,
  then_rule, read_rule, AccreditationRequest,
}
use fsf_acreditation_backend.Competitions.Matches.{get_match, assert_accepting_requests}
use fsf_acreditation_backend.Competitions.Reads.{get_match-Reads, assert_accepting_requests-Reads}
use fsf_acreditation_backend.Quotas.Service.{get_category}
use fsf_acreditation_backend.Quotas.Frame.{get_category-Reads}
use fsf_acreditation_backend.Quotas.Invariant.{Sound, reserve_slot-Sound}
use fsf_acreditation_backend.Accreditations.Service.{Crypto, generate_accreditation}
use fsf_acreditation_backend.Accreditations.Frame.{generate_accreditation_frame}
use fsf_acreditation_backend.Requests.Machine.{assert_rule}
use fsf_acreditation_backend.Requests.Draft.{
  SaveDraftInput, generate_unique_reference, write_draft, save_draft,
}
use fsf_acreditation_backend.Requests.Submit.{SubmitRequestInput, submit_request}
use fsf_acreditation_backend.Requests.Transition.{TransitionInput, transition_request}
use fsf_acreditation_backend.Requests.Complement.{
  RequestComplementInput, ResolveComplementInput, request_complement, resolve_complement,
}
use fsf_acreditation_backend.Requests.Decide.{
  validate, DecideRequestInput, reserve_quota_or_throw, generate_badge, carry_out,
}
use fsf_acreditation_backend.Requests.Decision.{generate_unique_reference-Reads}

module _ (db : Prisma) where
  abbrev pub Stays : {A : Type 0} → Database → Outcome A → Type 0
  Stays s r = r.1.quotas ≡ s.quotas

  pub submit_request-quotas :
      (now : Instant) (input : SubmitRequestInput) (s : Database)
      → Stays s (submit_request db now input s)
  unfolding submit_request
  submit_request-quotas now input s =
      or_throw_rule (Stays s) _ _ _ s (λ e. refl)
        λ r found.
          throw_if_rule (Stays s) _ _ _ s (λ e. refl)
            λ owned. assert_rule (Stays s) _ _ _ s refl λ allowed.
              read_rule (Stays s) (get_match db r.match_id) _ s (get_match-Reads db r.match_id)
                (λ e h. refl)
                λ m h.
                  read_rule (Stays s) (assert_accepting_requests now m) _ s
                    (assert_accepting_requests-Reads now m) (λ e h. refl) λ u h. refl

  pub transition_request-quotas :
      (input : TransitionInput) (s : Database) → Stays s (transition_request db input s)
  unfolding transition_request
  transition_request-quotas input s =
      or_throw_rule (Stays s) _ _ _ s (λ e. refl)
        λ r found. assert_rule (Stays s) _ _ _ s refl λ allowed. refl

  pub request_complement-quotas :
      (env : Env) (input : RequestComplementInput) (s : Database)
      → Stays s (request_complement db env input s)
  unfolding request_complement
  request_complement-quotas env input s =
      or_throw_rule (Stays s) _ _ _ s (λ e. refl)
        λ r found. assert_rule (Stays s) _ _ _ s refl λ allowed. refl

  pub resolve_complement-quotas :
      (now : Instant) (input : ResolveComplementInput) (s : Database)
      → Stays s (resolve_complement db now input s)
  unfolding resolve_complement
  resolve_complement-quotas now input s =
      or_throw_rule (Stays s) _ _ _ s (λ e. refl)
        λ r found.
          throw_if_rule (Stays s) _ _ _ s (λ e. refl)
            λ owned.
              or_throw_rule (Stays s) _ _ _ s (λ e. refl)
                λ c found_c.
                  throw_if_rule (Stays s) _ _ _ s (λ e. refl)
                    λ of_request. when_rule (Stays s) _ _ _ _ (λ open_. refl) (λ closed. refl)

  write_draft-quotas :
      (env : Env) (input : SaveDraftInput) (existing : Option AccreditationRequest) (s : Database)
      → Stays s (write_draft db env input existing s)
  unfolding write_draft
  write_draft-quotas env input (some existing) s = refl
  write_draft-quotas env input none s =
      read_rule (Stays s) (generate_unique_reference db env) _ s
        (generate_unique_reference-Reads db env) (λ e h. refl) λ reference h. refl

  pub save_draft-quotas :
      (env : Env) (input : SaveDraftInput) (s : Database) → Stays s (save_draft db env input s)
  unfolding save_draft
  save_draft-quotas env input s =
      read_rule (Stays s) (get_match db input.match_id) _ s (get_match-Reads db input.match_id)
        (λ e h. refl)
        λ m h.
          read_rule (Stays s) (get_category db input.category_requested_id) _ s
            (get_category-Reads db input.category_requested_id) (λ e h. refl)
            λ c h. write_draft-quotas env input _ s

  generate_badge-quotas :
      (crypto : Crypto) (env : Env) (r : AccreditationRequest) (input : DecideRequestInput)
      (s : Database)
      → Stays s (generate_badge db crypto env r input s)
  unfolding generate_badge
  generate_badge-quotas crypto env r input s =
      let ids = get_or input.zone_ids [] in
      let frame = generate_accreditation_frame db crypto env r.id ids input.assignment s in
      then_rule (Stays s) (generate_accreditation db crypto env r.id ids input.assignment) _ s
        (λ e u h. sym (ap (λ o. o.1.quotas) h) ∙ frame.1)
        (λ a u h. sym (ap (λ o. o.1.quotas) h) ∙ frame.1)

  -- The counters after a validation are those after the try to reserve; a rejection leaves them.
  pub carry_out-quotas :
      (crypto : Crypto) (env : Env) (r : AccreditationRequest) (input : DecideRequestInput)
      (s : Database)
      → (carry_out db crypto env r input validate s).1.quotas
        ≡ (reserve_quota_or_throw db r input s).1.quotas
  unfolding carry_out
  carry_out-quotas crypto env r input s =
      then_rule (λ o. o.1.quotas ≡ (reserve_quota_or_throw db r input s).1.quotas)
        (reserve_quota_or_throw db r input) _ s (λ e u h. sym (ap (λ o. o.1.quotas) h))
        (λ a u h. generate_badge-quotas crypto env r input _ ∙ sym (ap (λ o. o.1.quotas) h))

  pub reserve_quota_or_throw-Sound :
      (r : AccreditationRequest) (input : DecideRequestInput) (s : Database)
      → Sound db s.quotas
      → Sound db (reserve_quota_or_throw db r input s).1.quotas
  unfolding reserve_quota_or_throw throw_if
  reserve_quota_or_throw-Sound r input s sound =
      ground (arith, reserve_slot-Sound db r.match_id r.category_requested_id s sound)
