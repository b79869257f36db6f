-- ===== src/Store/Monad.antt =====
-- A call of a service: it reads and writes the database, and returns or throws. What was written
-- before a throw stays written, since only `$transaction` blocks are atomic.
use fsf_acreditation_backend.Base.{Bool, Option, none, some, if◌then◌else◌, ◌∷◌}
use fsf_acreditation_backend.Kernel.Errors.{Failure}
use fsf_acreditation_backend.Store.Events.{Event}
use fsf_acreditation_backend.Store.State.{Database}

pub data Result (A : Type 0) : Type 0 where
  ok : A → Result A
  err : Failure → Result A

abbrev pub Action : Type 0 → Type 0
Action A = Database → Result A × Database

module _ {A : Type 0} where
  abbrev pub pure : A → Action A
  pure a s = (ok a, s)

  abbrev pub throw : Failure → Action A
  throw e s = (err e, s)

  abbrev pub gets : (Database → A) → Action A
  gets f s = (ok (f s), s)

  unfoldable pub or_throw : Option A → Failure → Action A
  or_throw none e = throw e
  or_throw (some a) e = pure a

-- What follows a call: after a throw, nothing.
abbrev pub proceed : {A B : Type 0} → (A → Action B) → Result A × Database → Result B × Database
proceed f (ok a, s) = f a s
proceed f (err e, s) = (err e, s)

infixl 5 ◌>>=◌ ◌>>◌
abbrev pub ◌>>=◌ : {A B : Type 0} → Action A → (A → Action B) → Action B
◌>>=◌ m f s = proceed f (m s)

abbrev pub ◌>>◌ : {A B : Type 0} → Action A → Action B → Action B
m >> k = m >>= λ _. k

unfoldable pub throw_if : Bool → Failure → Action (Unit {0})
throw_if b e s = (if b then err e else ok tt, s)

-- A statement under `if`, with no `else`.
unfoldable pub when : Bool → Action (Unit {0}) → Action (Unit {0})
when b m s = if b then m s else (ok tt, s)

abbrev pub modify : (Database → Database) → Action (Unit {0})
modify f s = (ok tt, f s)

-- `eventBus.publish`
abbrev pub publish : Event → Action (Unit {0})
publish e s = (ok tt, record s { events = e ∷ s.events })
