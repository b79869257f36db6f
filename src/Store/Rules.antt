-- ===== src/Store/Rules.antt =====
-- Rules for a call that reads, tests and goes on: a predicate on its outcome holds if it holds on
-- each branch.
use fsf_acreditation_backend.Base.{
  ◌≡◌, refl, sym, ap, subst, ◌∙◌, Bool, true, false, Option, none, some,
}
use fsf_acreditation_backend.Kernel.Errors.{Failure}
use fsf_acreditation_backend.Store.State.{Database}
use fsf_acreditation_backend.Store.Monad.{
  Result, ok, err, Action, or_throw, throw_if, when, proceed, ◌>>=◌, ◌>>◌,
}

-- What a call leaves: its result and the database.
abbrev pub Outcome : Type 0 → Type 0
Outcome A = Result A × Database

pub or_throw_rule {ℓ} :
    {A B : Type 0} (P : Outcome B → Type ℓ) (o : Option A) (e : Failure) (k : A → Action B)
    (s : Database)
    → (o ≡ none → P (err e, s))
    → ((a : A) → o ≡ some a → P (k a s))
    → P ((or_throw o e >>= k) s)
unfolding or_throw
or_throw_rule P none e k s missing found = missing refl
or_throw_rule P (some a) e k s missing found = found a refl

pub throw_if_rule {ℓ} :
    {B : Type 0} (P : Outcome B → Type ℓ) (b : Bool) (e : Failure) (k : Action B) (s : Database)
    → (b ≡ true → P (err e, s))
    → (b ≡ false → P (k s))
    → P ((throw_if b e >> k) s)
unfolding throw_if
throw_if_rule P true e k s thrown passed = thrown refl
throw_if_rule P false e k s thrown passed = passed refl

pub when_rule {ℓ} :
    {B : Type 0} (P : Outcome B → Type ℓ) (b : Bool) (m : Action (Unit {0})) (k : Action B)
    (s : Database)
    → (b ≡ true → P ((m >> k) s))
    → (b ≡ false → P (k s))
    → P ((when b m >> k) s)
unfolding when
when_rule P true m k s done skipped = done refl
when_rule P false m k s done skipped = skipped refl

-- The same at the end of a call.
pub when_last_rule {ℓ} :
    (P : Outcome (Unit {0}) → Type ℓ) (b : Bool) (m : Action (Unit {0})) (s : Database)
    → (b ≡ true → P (m s))
    → (b ≡ false → P (ok tt, s))
    → P (when b m s)
unfolding when
when_last_rule P true m s done skipped = done refl
when_last_rule P false m s done skipped = skipped refl

-- A call followed by another: the first is described by its two kinds of outcome.
pub then_rule {ℓ} :
    {A B : Type 0} (P : Outcome B → Type ℓ) (m : Action A) (k : A → Action B) (s : Database)
    → ((e : Failure) (s' : Database) → m s ≡ (err e, s') → P (err e, s'))
    → ((a : A) (s' : Database) → m s ≡ (ok a, s') → P (k a s'))
    → P ((m >>= k) s)
then_rule {A} {B} P m k s failed went = go (m s) refl
  where
    go : (r : Outcome A) → m s ≡ r → P (proceed k r)
    go (ok a, s') e = went a s' e
    go (err f, s') e = failed f s' e

-- A call that writes nothing.
abbrev pub Reads : {A : Type 0} → Action A → Type 0
Reads m = (s : Database) → (m s).1 ≡ s

pub read_rule {ℓ} :
    {A B : Type 0} (P : Outcome B → Type ℓ) (m : Action A) (k : A → Action B) (s : Database)
    → Reads m
    → ((e : Failure) → m s ≡ (err e, s) → P (err e, s))
    → ((a : A) → m s ≡ (ok a, s) → P (k a s))
    → P ((m >>= k) s)
read_rule {A} P m k s reads failed went = then_rule P m k s on_failure on_success
  where
    same : {r : Result A} {s' : Database} → m s ≡ (r, s') → s' ≡ s
    same e = sym (ap (λ o. o.1) e) ∙ reads s

    on_failure : (e : Failure) (s' : Database) → m s ≡ (err e, s') → P (err e, s')
    on_failure f s' e =
        subst (λ t. P (err f, t)) (sym (same e))
          (failed f (subst (λ t. m s ≡ (err f, t)) (same e) e))

    on_success : (a : A) (s' : Database) → m s ≡ (ok a, s') → P (k a s')
    on_success a s' e =
        subst (λ t. P (k a t)) (sym (same e)) (went a (subst (λ t. m s ≡ (ok a, t)) (same e) e))
