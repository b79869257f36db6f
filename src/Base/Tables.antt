-- ===== src/Base/Tables.antt =====
-- The rows of a table as a list, and what a query means on them.
use Prim.Native.Nat.{ℕ, suc, ◌≤◌}
use mathlib.Core.Path.{◌≡◌, refl, subst}
use mathlib.Core.Logic.{◌⊎◌, inl, inr}
use mathlib.Core.Bool.{Bool, true, false}
use mathlib.Core.Option.{Option, none, some, none-ne-some, some-injective}
use mathlib.Core.Option
use mathlib.Core.List.{List, [], ◌∷◌}
use native.Mathlib.Omega.{arith}
use fsf_acreditation_backend.Base.Equality.{if◌then◌else◌}
use fsf_acreditation_backend.Base.Cases.{is_some, Bool-cases}

module _ {ℓ} {A : Type ℓ} where
  abbrev pub length : List A → ℕ
  length [] = 0
  length (x ∷ xs) = suc (length xs)

  -- The first row that fits.
  unfoldable pub find : (A → Bool) → List A → Option A
  find p [] = none
  find p (x ∷ xs) = if p x then some x else find p xs

  -- The number of rows that fit.
  unfoldable pub count : (A → Bool) → List A → ℕ
  count p [] = 0
  count p (x ∷ xs) = let rest = count p xs in if p x then suc rest else rest

  -- Every row that fits is changed, the others stay.
  unfoldable pub update : (A → Bool) → (A → A) → List A → List A
  update p f [] = []
  update p f (x ∷ xs) = (if p x then f x else x) ∷ update p f xs

  -- The rows that fit.
  unfoldable pub select : (A → Bool) → List A → List A
  select p [] = []
  select p (x ∷ xs) = let rest = select p xs in if p x then x ∷ rest else rest

  abbrev pub apply_if : (A → Bool) → (A → A) → A → A
  apply_if p f x = if p x then f x else x

  pub find-true : (p : A → Bool) (xs : List A) {x : A} → find p xs ≡ some x → p x ≡ true
  unfolding find
  find-true p [] h = cc
  find-true p (y ∷ xs) {x} h = ground (arith, find-true p xs {x = x})

  -- A change that a query cannot see leaves the row that the query finds in its place.
  pub find-update :
      (q p : A → Bool) (f : A → A) (xs : List A)
      → ((x : A) → p x ≡ true → q (f x) ≡ q x)
      → find q (update p f xs) ≡ Option.map (apply_if p f) (find q xs)
  unfolding find update
  find-update q p f [] h = refl
  find-update q p f (x ∷ xs) h = ground (arith, h x, find-update q p f xs h)

  -- Where a query finds a row that another query sees, the other finds one too.
  pub find-is_some :
      (q p : A → Bool) (xs : List A) {x : A}
      → find q xs ≡ some x
      → p x ≡ true
      → is_some (find p xs) ≡ true
  unfolding find
  find-is_some q p [] h t = cc
  find-is_some q p (y ∷ xs) {x} h t = ground (arith, find-is_some q p xs {x = x})

  -- A row that a selection keeps is still the first of its query.
  pub find-select :
      (q p : A → Bool) (xs : List A)
      → ((x : A) → q x ≡ true → p x ≡ true)
      → find q (select p xs) ≡ find q xs
  unfolding find select
  find-select q p [] h = refl
  find-select q p (x ∷ xs) h = ground (arith, h x, find-select q p xs h)

  pub count-update :
      (q p : A → Bool) (f : A → A) (xs : List A)
      → ((x : A) → p x ≡ true → q (f x) ≡ q x)
      → count q (update p f xs) ≡ count q xs
  unfolding count update
  count-update q p f [] h = refl
  count-update q p f (x ∷ xs) h = ground (arith, h x, count-update q p f xs h)

  -- A query that finds no row counts none, and the other way round.
  pub count_of_find-none : (p : A → Bool) (xs : List A) → find p xs ≡ none → count p xs ≡ 0
  unfolding find count
  count_of_find-none p [] h = refl
  count_of_find-none p (x ∷ xs) h = ground (arith, count_of_find-none p xs)

  pub count_of_find-some :
      (p : A → Bool) (xs : List A) {x : A} → find p xs ≡ some x → 1 ≤ count p xs
  unfolding find count
  count_of_find-some p [] h = cc
  count_of_find-some p (y ∷ xs) {x} h = ground (arith, count_of_find-some p xs {x = x})

  -- A predicate on every row.
  abbrev pub All {κ} : (A → Type κ) → List A → Type κ
  All P [] = Unit
  All P (x ∷ xs) = P x × All P xs

  pub All-update {κ} :
      (P : A → Type κ) (p : A → Bool) (f : A → A) (xs : List A)
      → ((x : A) → p x ≡ true → P x → P (f x))
      → All P xs
      → All P (update p f xs)
  unfolding update
  All-update P p f [] h a = tt
  All-update P p f (x ∷ xs) h a = (apply (Bool-cases (p x)), All-update P p f xs h a.1)
    where
      apply : (p x ≡ true) ⊎ (p x ≡ false) → P (if p x then f x else x)
      apply (inl e) = rw e (h x e a.0)
      apply (inr e) = rw e a.0

  pub find-All {κ} :
      (P : A → Type κ) (p : A → Bool) (xs : List A) {x : A} → find p xs ≡ some x → All P xs → P x
  unfolding find
  find-All P p [] h a = absurd (none-ne-some _ h)
  find-All P p (y ∷ xs) {x} h a = elim (Bool-cases (p y)) [
    | inl e ↦ subst P (some-injective y x (rw e at h)) a.0
    | inr e ↦ find-All P p xs (rw e at h) a.1
  ]
