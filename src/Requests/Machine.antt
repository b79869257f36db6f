-- ===== src/Requests/Machine.antt =====
-- Paths in the table of transitions.
use fsf_acreditation_backend.Base.{◌≡◌, refl, ◌⊎◌, inl, inr, true, includes, arith, Bool-cases}
use fsf_acreditation_backend.Kernel.Errors.{ErrorCode, ErrorKind, throws}
use fsf_acreditation_backend.Store.{
  RequestStatus, request_status_eq, Database, Action, err, ◌>>◌, throw_if, Outcome,
}
use fsf_acreditation_backend.Requests.Status.{request_transitions, assert_transition_allowed}

-- One allowed transition, as `assertTransitionAllowed` tests it.
abbrev pub Allowed : RequestStatus → RequestStatus → Type 0
Allowed from to = includes (request_transitions from) to ≡ true

-- A sequence of allowed transitions.
infix 40 ◌⟶*◌
pub data ◌⟶*◌ : RequestStatus → RequestStatus → Type 0 where
  here : {a : RequestStatus} → a ⟶* a
  then : {a b c : RequestStatus} → Allowed a b → b ⟶* c → a ⟶* c

pub ⟶*_trans : {a b c : RequestStatus} → a ⟶* b → b ⟶* c → a ⟶* c
⟶*_trans here q = q
⟶*_trans (then h p) q = then h (⟶*_trans p q)

pub ⟶*_one : {a b : RequestStatus} → Allowed a b → a ⟶* b
⟶*_one h = then h here

-- The statuses that no transition leaves.
abbrev pub IsTerminal : RequestStatus → Type 0
IsTerminal a =
    (a ≡ RequestStatus.access_used) ⊎ (a ≡ RequestStatus.rejected) ⊎ (a ≡ RequestStatus.cancelled)

not-Allowed : (a b : RequestStatus) → IsTerminal a → ¬ Allowed a b
unfolding request_transitions
not-Allowed a b t h = ground arith

-- A path from a terminal status stays there.
pub ⟶*-IsTerminal : {a b : RequestStatus} → a ⟶* b → IsTerminal a → b ≡ a
⟶*-IsTerminal here t = refl
⟶*-IsTerminal {a} (then {b = b} h p) t = absurd (not-Allowed a b t h)

-- A guarded step goes on under an allowed transition, and otherwise throws.
pub assert_rule {ℓ} :
    {B : Type 0} (P : Outcome B → Type ℓ) (from to : RequestStatus) (k : Action B) (s : Database)
    → P (err (throws ErrorCode.request_invalid_transition ErrorKind.invalid_transition), s)
    → (Allowed from to → P (k s))
    → P ((assert_transition_allowed from to >> k) s)
unfolding assert_transition_allowed throw_if
assert_rule P from to k s refused allowed =
    elim (Bool-cases (includes (request_transitions from) to)) [
      | inl e ↦ rw e (allowed e)
      | inr e ↦ rw e refused
    ]
