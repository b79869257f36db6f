-- ===== src/Accreditations/Draws.antt =====
-- Which number a badge gets.
use fsf_acreditation_backend.Base.{
  ℕ, zero, suc, ◌+◌, ◌<◌, ◌≡◌, refl, ◌⊎◌, inl, inr, Bool, true, false, none, some, List, [], ◌∷◌,
  ◌==◌, list_eq, nat_eq, arith, is_some, All, Bool-cases,
}
use fsf_acreditation_backend.Kernel.Errors.{ErrorCode, ErrorKind, throws}
use fsf_acreditation_backend.Store.{Prisma, Database, Text, Env, ok, err, or_throw}
use fsf_acreditation_backend.Accreditations.Numbering.{candidate, badge_prefix, first_free}
use fsf_acreditation_backend.Accreditations.Service.{generate_badge_number}

-- The indices of the attempts.
abbrev attempts_from : ℕ → ℕ → List ℕ
attempts_from i zero = []
attempts_from i (suc n) = i ∷ attempts_from (suc i) n

module _ (taken : Text → Bool) (make : ℕ → Text) (draw : ℕ → ℕ) where
  -- The first free candidate, or none is free.
  first_free_lem :
      (n i : ℕ)
      → ((k : ℕ) × (k < i + n)
          × (first_free n taken make draw i ≡ some (make (draw k)))
          × (taken (make (draw k)) ≡ false))
        ⊎ ((first_free n taken make draw i ≡ none)
            × All (λ k. taken (make (draw k)) ≡ true) (attempts_from i n))
  unfolding first_free
  first_free_lem zero i = inr (refl, tt)
  first_free_lem (suc n) i = elim (Bool-cases (taken (make (draw i)))) [
    | inl e ↦ elim (first_free_lem n (suc i)) [
      | inl (k, less, found, free) ↦ inl (k, ground arith, rw e found, free)
      | inr (nothing, all_taken) ↦ inr (rw e nothing, (e, all_taken))
    ]
    | inr e ↦ inl (i, ground arith, rw e refl, e)
  ]

module _ (db : Prisma) where
  abbrev number_taken : Database → Text → Bool
  number_taken s n = is_some (db.find_unique (λ a. a.number == n) s.accreditations)

  -- A badge number is generated without a write: either it is that of one of the five draws and no
  -- badge has it, or the call throws and badges have the numbers of all five draws.
  pub generate_badge_number_lem :
      (env : Env) (s : Database)
      → ((k : ℕ) × (k < 5)
          × (generate_badge_number db env s
              ≡ (ok (candidate badge_prefix env.year (env.draw k)), s))
          × (number_taken s (candidate badge_prefix env.year (env.draw k)) ≡ false))
        ⊎ ((generate_badge_number db env s
              ≡ (err (throws ErrorCode.badge_number_generation_failed ErrorKind.conflict), s))
            × All
                (λ k. number_taken s (candidate badge_prefix env.year (env.draw k)) ≡ true)
                (0 ∷ 1 ∷ 2 ∷ 3 ∷ 4 ∷ []))
  unfolding generate_badge_number or_throw
  generate_badge_number_lem env s =
      elim (first_free_lem (number_taken s) (candidate badge_prefix env.year) env.draw 5 0) [
        | inl (k, less, found, free) ↦ inl (k, less, rw found refl, free)
        | inr (nothing, all_taken) ↦ inr (rw nothing refl, all_taken)
      ]
