-- ===== src/Accreditations/Numbering.antt =====
-- References such as `ACC-2026-000042`: `generateBadgeNumber` of
-- src/modules/accreditations/accreditations.service.ts and `generateUniqueReference` of
-- src/modules/requests/application/commands/save-draft-request.usecase.ts.
use fsf_acreditation_backend.Base.{
  ℕ, zero, suc, ◌+◌, ◌-◌, ◌/◌, ◌%◌, Bool, Option, none, some, List, [], ◌∷◌, ◌++◌, ◌==◌, nat_eq,
  if◌then◌else◌, length,
}
use fsf_acreditation_backend.Store.{Text}

-- The decimal digits of a number, before those that are written already.
unfoldable pub decimal_from : ℕ → ℕ → Text → Text
decimal_from zero n digits = digits
decimal_from (suc fuel) n digits =
    let rest = decimal_from fuel (n / 10) ((b'0' + n % 10) ∷ digits) in
    if n / 10 == 0 then (b'0' + n % 10) ∷ digits else rest

-- `String(n)`: a number has no more digits than its value and one.
unfoldable pub decimal : ℕ → Text
unfolding decimal_from
decimal n = decimal_from (suc n) n []

abbrev pub replicate {ℓ} : {A : Type ℓ} → ℕ → A → List A
replicate zero a = []
replicate (suc n) a = a ∷ replicate n a

-- `text.padStart(width, fill)`
unfoldable pub pad_start : ℕ → ℕ → Text → Text
pad_start width fill text = replicate (width - length text) fill ++ text

-- `${prefix}-${year}-${number}`
unfoldable pub candidate : Text → ℕ → ℕ → Text
unfolding decimal pad_start
candidate prefix year number =
    prefix ++ (b'-' ∷ (decimal year ++ (b'-' ∷ pad_start 6 b'0' (decimal number))))

abbrev pub badge_prefix : Text
badge_prefix = b'A' ∷ b'C' ∷ b'C' ∷ []

abbrev pub request_prefix : Text
request_prefix = b'F' ∷ b'S' ∷ b'F' ∷ []

-- The loop of both functions: the first candidate that no row has, of at most `attempts`, where
-- `draw` is the random number of each attempt.
unfoldable pub first_free :
    (attempts : ℕ)
    → (taken : Text → Bool) → (make : ℕ → Text) → (draw : ℕ → ℕ) → (attempt : ℕ) → Option Text
first_free zero taken make draw attempt = none
first_free (suc attempts) taken make draw attempt =
    let rest = first_free attempts taken make draw (suc attempt) in
    if taken (make (draw attempt)) then rest else some (make (draw attempt))
