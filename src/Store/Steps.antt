-- ===== src/Store/Steps.antt =====
-- One step of a call whose outcome is known.
use fsf_acreditation_backend.Base.{◌≡◌, refl, ap, Bool, true, false, Option, none, some}
use fsf_acreditation_backend.Kernel.Errors.{Failure}
use fsf_acreditation_backend.Store.State.{Database}
use fsf_acreditation_backend.Store.Monad.{
  ok, err, Action, or_throw, throw_if, when, proceed, ◌>>=◌, ◌>>◌,
}

module _ {A B : Type 0} where
  pub or_throw-some :
      {o : Option A} {a : A} (e : Failure) (k : A → Action B) (s : Database)
      → o ≡ some a
      → (or_throw o e >>= k) s ≡ k a s
  unfolding or_throw
  or_throw-some {o} {a} e k s h = rw h refl

  pub or_throw-none :
      {o : Option A} (e : Failure) (k : A → Action B) (s : Database)
      → o ≡ none
      → (or_throw o e >>= k) s ≡ (err e, s)
  unfolding or_throw
  or_throw-none {o} e k s h = rw h refl

  pub then_ok :
      (m : Action A) (k : A → Action B) (s : Database) {a : A} {s' : Database}
      → m s ≡ (ok a, s')
      → (m >>= k) s ≡ k a s'
  then_ok m k s h = ap (proceed k) h

  pub then_err :
      (m : Action A) (k : A → Action B) (s : Database) {e : Failure} {s' : Database}
      → m s ≡ (err e, s')
      → (m >>= k) s ≡ (err e, s')
  then_err m k s h = ap (proceed k) h

module _ {B : Type 0} where
  pub throw_if-false :
      {b : Bool} (e : Failure) (k : Action B) (s : Database)
      → b ≡ false
      → (throw_if b e >> k) s ≡ k s
  unfolding throw_if
  throw_if-false {b} e k s h = rw h refl

  pub throw_if-true :
      {b : Bool} (e : Failure) (k : Action B) (s : Database)
      → b ≡ true
      → (throw_if b e >> k) s ≡ (err e, s)
  unfolding throw_if
  throw_if-true {b} e k s h = rw h refl

  pub when-true :
      {b : Bool} (m : Action (Unit {0})) (k : Action B) (s : Database)
      → b ≡ true
      → (when b m >> k) s ≡ (m >> k) s
  unfolding when
  when-true {b} m k s h = rw h refl

  pub when-false :
      {b : Bool} (m : Action (Unit {0})) (k : Action B) (s : Database)
      → b ≡ false
      → (when b m >> k) s ≡ k s
  unfolding when
  when-false {b} m k s h = rw h refl
