-- ===== src/Requests/Capacity.antt =====
-- The quotas under any sequence of calls on requests.
use fsf_acreditation_backend.Base.{◌≡◌, sym, subst, List, [], ◌∷◌}
use fsf_acreditation_backend.Store.{
  Prisma, Database, Env, Outcome, or_throw_rule, throw_if_rule, when_rule, then_rule,
  AccreditationRequest, MatchCategoryQuota,
}
use fsf_acreditation_backend.Quotas.Service.{release_slot}
use fsf_acreditation_backend.Quotas.Laws.{Distinct, Within}
use fsf_acreditation_backend.Quotas.Invariant.{Sound, release_slot-Sound}
use fsf_acreditation_backend.Accreditations.Service.{Crypto}
use fsf_acreditation_backend.Requests.Machine.{assert_rule}
use fsf_acreditation_backend.Requests.Cancel.{CancelRequestInput, cancel_request}
use fsf_acreditation_backend.Requests.Decide.{
  Verdict, validate, reject, DecideRequestInput, carry_out, decide_request,
}
use fsf_acreditation_backend.Requests.Counters.{
  submit_request-quotas, transition_request-quotas, request_complement-quotas,
  resolve_complement-quotas, save_draft-quotas, carry_out-quotas, reserve_quota_or_throw-Sound,
}
use fsf_acreditation_backend.Requests.History.{
  Call, save, submit, transition, ask_complement, resolve, cancel, decide, step, run,
}

module _ (db : Prisma) where
  abbrev SoundAfter : {A : Type 0} → Outcome A → Type 0
  SoundAfter r = Sound db r.1.quotas

  stay : {rows rows' : List MatchCategoryQuota} → rows' ≡ rows → Sound db rows → Sound db rows'
  stay e sound = subst (Sound db) (sym e) sound

  carry_out-Sound :
      (crypto : Crypto) (env : Env) (r : AccreditationRequest) (input : DecideRequestInput)
      (v : Verdict) (s : Database)
      → Sound db s.quotas
      → SoundAfter (carry_out db crypto env r input v s)
  unfolding carry_out
  carry_out-Sound crypto env r input validate s sound =
      stay (carry_out-quotas db crypto env r input s)
        (reserve_quota_or_throw-Sound db r input s sound)
  carry_out-Sound crypto env r input reject s sound = sound

  decide_request-Sound :
      (crypto : Crypto) (env : Env) (input : DecideRequestInput) (s : Database)
      → Sound db s.quotas
      → SoundAfter (decide_request db crypto env input s)
  unfolding decide_request
  decide_request-Sound crypto env input s sound =
      or_throw_rule SoundAfter _ _ _ s (λ e. sound)
        λ r found.
          assert_rule SoundAfter _ _ _ s sound
            λ allowed. carry_out-Sound crypto env r input input.status s sound

  cancel_request-Sound :
      (input : CancelRequestInput) (s : Database)
      → Sound db s.quotas
      → SoundAfter (cancel_request db input s)
  unfolding cancel_request
  cancel_request-Sound input s sound =
      or_throw_rule SoundAfter _ _ _ s (λ e. sound)
        λ r found.
          throw_if_rule SoundAfter _ _ _ s (λ e. sound)
            λ owned. assert_rule SoundAfter _ _ _ s sound λ allowed.
              when_rule SoundAfter _ _ _ _
                (λ reserved.
                  then_rule SoundAfter (release_slot db r.match_id r.category_requested_id) _ _
                    (λ e u h. released r _ h sound) (λ a u h. released r _ h sound))
                (λ free. sound)
    where
      released :
          (r : AccreditationRequest) (t : Database) {o : Outcome (Unit {0})}
          → release_slot db r.match_id r.category_requested_id t ≡ o
          → Sound db t.quotas
          → Sound db o.1.quotas
      released r t h sound =
          subst SoundAfter h (release_slot-Sound db r.match_id r.category_requested_id t sound)

  step-Sound : (c : Call) (s : Database) → Sound db s.quotas → Sound db (step db c s).quotas
  unfolding step
  step-Sound (save env input) s = stay (save_draft-quotas db env input s)
  step-Sound (submit now input) s = stay (submit_request-quotas db now input s)
  step-Sound (transition input) s = stay (transition_request-quotas db input s)
  step-Sound (ask_complement env input) s = stay (request_complement-quotas db env input s)
  step-Sound (resolve now input) s = stay (resolve_complement-quotas db now input s)
  step-Sound (cancel input) s = cancel_request-Sound input s
  step-Sound (decide crypto env input) s = decide_request-Sound crypto env input s

  -- From a table of quotas with distinct identifiers and no counter above its total, no sequence
  -- of calls on requests, returned or thrown, brings a counter above its total, and identifiers
  -- stay distinct.
  pub run-Within :
      (cs : List Call) (s : Database)
      → Distinct s.quotas
      → Within s.quotas
      → Distinct (run db cs s).quotas × Within (run db cs s).quotas
  unfolding run
  run-Within [] s distinct within = (distinct, within)
  run-Within (c ∷ cs) s distinct within =
      let (d, w) = step-Sound c s (distinct, within) in run-Within cs (step db c s) d w
