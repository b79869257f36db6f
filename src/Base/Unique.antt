-- ===== src/Base/Unique.antt =====
-- Rows under a key that at most one of them has.
use Prim.Native.Nat.{◌≤◌}
use mathlib.Core.Path.{◌≡◌, refl}
use mathlib.Core.Logic.{inl, inr}
use mathlib.Core.Bool.{Bool, true, ◌&&◌}
use mathlib.Core.Option.{some, some-injective}
use mathlib.Core.List.{List, [], ◌∷◌}
use native.Mathlib.Omega.{arith}
use fsf_acreditation_backend.Base.Equality.{if◌then◌else◌}
use fsf_acreditation_backend.Base.Cases.{Bool-cases}
use fsf_acreditation_backend.Base.Tables.{find, count, All}

module _ {ℓ} {A : Type ℓ} where
  -- What any query finds is counted under each key that it has.
  pub count_of_found :
      (p k : A → Bool) (xs : List A) (x : A) → find p xs ≡ some x → k x ≡ true → 1 ≤ count k xs
  unfolding find count
  count_of_found p k [] x h t = cc
  count_of_found p k (y ∷ xs) x h t = ground (arith, count_of_found p k xs x)

  absent : (k : A → Bool) (xs : List A) (x : A) → count k xs ≤ 0 → All (λ r. k r ≡ true → r ≡ x) xs
  unfolding count
  absent k [] x h = tt
  absent k (y ∷ xs) x h = (λ t. ground arith, absent k xs x (ground arith))

  -- If one row at most has a key, a row that has it is the row found.
  pub unique_row :
      (p k : A → Bool) (xs : List A) (x : A)
      → find p xs ≡ some x
      → k x ≡ true
      → count k xs ≤ 1
      → All (λ r. k r ≡ true → r ≡ x) xs
  unfolding find count
  unique_row p k [] x h t few = tt
  unique_row p k (y ∷ xs) x h t few = elim (Bool-cases (p y)) [
    | inl e ↦
        let same : y ≡ x = some-injective y x (rw e at h) in
        (λ u. same, absent k xs x (ground arith))
    | inr e ↦
        let found : find p xs ≡ some x = rw e at h in
        let many = count_of_found p k xs x found t in
        (λ u. ground arith, unique_row p k xs x found t (ground arith))
  ]

  count_none : (k t : A → Bool) (xs : List A) → count k xs ≤ 0 → count (λ r. k r && t r) xs ≡ 0
  unfolding count
  count_none k t [] h = refl
  count_none k t (y ∷ xs) h = ground (arith, count_none k t xs)

  -- A further test under such a key counts one row or none, as the row found passes it or not.
  pub count_of_unique :
      (p k t : A → Bool) (xs : List A) (x : A)
      → find p xs ≡ some x
      → k x ≡ true
      → count k xs ≤ 1
      → count (λ r. k r && t r) xs ≡ (if t x then 1 else 0)
  unfolding find count
  count_of_unique p k t [] x h e few = cc
  count_of_unique p k t (y ∷ xs) x h e few = elim (Bool-cases (p y)) [
    | inl c ↦ let same : y ≡ x = some-injective y x (rw c at h) in ground (arith, count_none k t xs)
    | inr c ↦
        let found : find p xs ≡ some x = rw c at h in
        let many = count_of_found p k xs x found e in
        ground (arith, count_of_unique p k t xs x found e)
  ]

  -- Two predicates on every row.
  pub All-both {κ μ} :
      (P : A → Type κ) (Q : A → Type μ) (xs : List A)
      → All P xs
      → All Q xs
      → All (λ r. P r × Q r) xs
  All-both P Q [] a b = tt
  All-both P Q (x ∷ xs) a b = ((a.0, b.0), All-both P Q xs a.1 b.1)

  pub All-map {κ μ} :
      (P : A → Type κ) (Q : A → Type μ) (xs : List A) → ((x : A) → P x → Q x) → All P xs → All Q xs
  All-map P Q [] h a = tt
  All-map P Q (x ∷ xs) h a = (h x a.0, All-map P Q xs h a.1)
