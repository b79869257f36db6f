-- ===== src/Requests/History.antt =====
-- The life of a request under any sequence of calls.
use fsf_acreditation_backend.Base.{◌≡◌, List, [], ◌∷◌, none, some}
use fsf_acreditation_backend.Store.{
  Prisma, Database, AccreditationRequest, Uuid, Instant, Env, request_key,
}
use fsf_acreditation_backend.Accreditations.Service.{Crypto}
use fsf_acreditation_backend.Requests.Machine.{IsTerminal, ⟶*-IsTerminal}
use fsf_acreditation_backend.Requests.Rows.{
  Continues, RowsContinue, RowsContinue-refl, RowsContinue-trans,
}
use fsf_acreditation_backend.Requests.Effects.{
  transition_request-Keeps, submit_request-Keeps, request_complement-Keeps,
  resolve_complement-Keeps, cancel_request-Keeps,
}
use fsf_acreditation_backend.Requests.Decision.{decide_request-Keeps, save_draft-Keeps}
use fsf_acreditation_backend.Requests.Draft.{SaveDraftInput, save_draft}
use fsf_acreditation_backend.Requests.Submit.{SubmitRequestInput, submit_request}
use fsf_acreditation_backend.Requests.Transition.{TransitionInput, transition_request}
use fsf_acreditation_backend.Requests.Complement.{
  RequestComplementInput, ResolveComplementInput, request_complement, resolve_complement,
}
use fsf_acreditation_backend.Requests.Cancel.{CancelRequestInput, cancel_request}
use fsf_acreditation_backend.Requests.Decide.{DecideRequestInput, decide_request}

-- The calls of the two controllers, with what each reads from outside.
pub data Call : Type 0 where
  save : Env → SaveDraftInput → Call
  submit : Instant → SubmitRequestInput → Call
  transition : TransitionInput → Call
  ask_complement : Env → RequestComplementInput → Call
  resolve : Instant → ResolveComplementInput → Call
  cancel : CancelRequestInput → Call
  decide : Crypto → Env → DecideRequestInput → Call

module _ (db : Prisma) where
  -- The database after a call, whether it returned or threw.
  unfoldable pub step : Call → Database → Database
  step (save env input) s = (save_draft db env input s).1
  step (submit now input) s = (submit_request db now input s).1
  step (transition input) s = (transition_request db input s).1
  step (ask_complement env input) s = (request_complement db env input s).1
  step (resolve now input) s = (resolve_complement db now input s).1
  step (cancel input) s = (cancel_request db input s).1
  step (decide crypto env input) s = (decide_request db crypto env input s).1

  unfoldable pub run : List Call → Database → Database
  unfolding step
  run [] s = s
  run (c ∷ cs) s = run cs (step c s)

  -- A saved draft gets an identifier that no request has.
  abbrev pub IsFresh : Call → Database → Type 0
  IsFresh (save env input) s = db.find_unique (request_key env.new_id) s.requests ≡ none
  IsFresh _ s = Unit

  abbrev pub AllFresh : List Call → Database → Type 0
  AllFresh [] s = Unit
  AllFresh (c ∷ cs) s = IsFresh c s × AllFresh cs (step c s)

  step-RowsContinue :
      (c : Call) (s : Database) → IsFresh c s → RowsContinue db s.requests (step c s).requests
  unfolding step
  step-RowsContinue (save env input) s fresh = save_draft-Keeps db env input s fresh
  step-RowsContinue (submit now input) s fresh = submit_request-Keeps db now input s
  step-RowsContinue (transition input) s fresh = transition_request-Keeps db input s
  step-RowsContinue (ask_complement env input) s fresh = request_complement-Keeps db env input s
  step-RowsContinue (resolve now input) s fresh = resolve_complement-Keeps db now input s
  step-RowsContinue (cancel input) s fresh = cancel_request-Keeps db input s
  step-RowsContinue (decide crypto env input) s fresh = decide_request-Keeps db crypto env input s

  run-RowsContinue :
      (cs : List Call) (s : Database)
      → AllFresh cs s
      → RowsContinue db s.requests (run cs s).requests
  unfolding run
  run-RowsContinue [] s fresh = RowsContinue-refl db s.requests
  run-RowsContinue (c ∷ cs) s fresh =
      RowsContinue-trans db (step-RowsContinue c s fresh.0) (run-RowsContinue cs (step c s) fresh.1)

  -- After any sequence of calls, returned or thrown, in which new drafts get fresh identifiers, a
  -- request of the table is still there under its identifier, with its owner, match and reference,
  -- and its status has moved along allowed transitions only.
  pub run-Continues :
      (cs : List Call) (s : Database) (id : Uuid) (r : AccreditationRequest)
      → AllFresh cs s
      → db.find_unique (request_key id) s.requests ≡ some r
      → (r' : AccreditationRequest) × (db.find_unique (request_key id) (run cs s).requests
          ≡ some r')
        × Continues r r'
  run-Continues cs s id r fresh found = run-RowsContinue cs s fresh id r found

  -- A request that is rejected, cancelled or used keeps that status under any sequence of calls in
  -- which new drafts get fresh identifiers.
  pub run-IsTerminal :
      (cs : List Call) (s : Database) (id : Uuid) (r : AccreditationRequest)
      → AllFresh cs s
      → db.find_unique (request_key id) s.requests ≡ some r
      → IsTerminal r.status
      → (r' : AccreditationRequest) × (db.find_unique (request_key id) (run cs s).requests
          ≡ some r')
        × (r'.status ≡ r.status)
  run-IsTerminal cs s id r fresh found terminal =
      let (r', found', kept) = run-RowsContinue cs s fresh id r found in
      (r', found', ⟶*-IsTerminal kept.path terminal)
