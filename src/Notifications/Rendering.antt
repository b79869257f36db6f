-- ===== src/Notifications/Rendering.antt =====
-- What the renderer makes of a template.
use mathlib.Core.Option.{none-ne-some}
use fsf_acreditation_backend.Base.{
  ℕ, zero, suc, ◌+◌, ◌≤◌, ◌<◌, ◌≡◌, refl, sym, ap, ◌∙◌, Bool, Option, none, some, [], ◌∷◌, ◌++◌,
  nat_eq, arith, length, Option-cases, inl, inr,
}
use fsf_acreditation_backend.Store.{Text}
use fsf_acreditation_backend.Notifications.Renderer.{
  is_space, is_word, Run, span, after_pair, Placeholder, close_placeholder, placeholder, value_text,
  render_from, render,
}

span_shorter : (p : ℕ → Bool) (t : Text) → length (span p t).rest ≤ length t
unfolding span
span_shorter p [] = omega arith
span_shorter p (c ∷ cs) = ground (arith, span_shorter p cs)

after_pair_shorter :
    (c : ℕ) (t : Text) (rest : Text) → after_pair c t ≡ some rest → length rest + 2 ≤ length t
unfolding after_pair
after_pair_shorter c [] rest h = ground arith
after_pair_shorter c (a ∷ []) rest h = ground arith
after_pair_shorter c (a ∷ b ∷ t) rest h = ground arith

close_only :
    (name : Run) (m : Placeholder)
    → close_placeholder name ≡ some m
    → after_pair b'}' (span is_space name.rest).rest ≡ some m.rest
unfolding close_placeholder
close_only name m h = ground arith

placeholder_only :
    (t : Text) (m : Placeholder)
    → placeholder t ≡ some m
    → (inner : Text) × (after_pair b'{' t ≡ some inner)
      × (close_placeholder (span is_word (span is_space inner).rest) ≡ some m)
unfolding placeholder
placeholder_only t m h = elim (Option-cases (after_pair b'{' t)) [
  | inl e ↦ absurd (none-ne-some m (rw (placeholder, e) at h))
  | inr (inner, e) ↦ (inner, e, rw (placeholder, e) at h)
]

-- A match takes characters off the text.
placeholder_shorter :
    (t : Text) (m : Placeholder) → placeholder t ≡ some m → length m.rest < length t
placeholder_shorter t m h =
    let (inner, opened, closed) = placeholder_only t m h in
    let name = span is_word (span is_space inner).rest in
    let a = after_pair_shorter b'{' t inner opened in
    let b = span_shorter is_space inner in
    let c = span_shorter is_word (span is_space inner).rest in
    let d = span_shorter is_space name.rest in
    let e =
      after_pair_shorter b'}' (span is_space name.rest).rest m.rest (close_only name m closed) in
    omega arith

module _ (variables : Text → Option Text) where
  step_text :
      (n c : ℕ) (cs : Text)
      → placeholder (c ∷ cs) ≡ none
      → render_from (suc n) variables (c ∷ cs) ≡ c ∷ render_from n variables cs
  unfolding render_from
  step_text n c cs e = rw (render_from, e) refl

  step_placeholder :
      (n c : ℕ) (cs : Text) (m : Placeholder)
      → placeholder (c ∷ cs) ≡ some m
      → render_from (suc n) variables (c ∷ cs)
        ≡ value_text (variables m.key) ++ render_from n variables m.rest
  unfolding render_from
  step_placeholder n c cs m e = rw (render_from, e) refl

  same_result :
      (n m : ℕ) (t : Text)
      → length t ≤ n
      → length t ≤ m
      → render_from n variables t ≡ render_from m variables t
  unfolding render_from
  same_result zero zero t h k = refl
  same_result zero (suc m) [] h k = refl
  same_result zero (suc m) (c ∷ cs) h k = absurd (omega arith)
  same_result (suc n) zero [] h k = refl
  same_result (suc n) zero (c ∷ cs) h k = absurd (omega arith)
  same_result (suc n) (suc m) [] h k = refl
  same_result (suc n) (suc m) (c ∷ cs) h k = elim (Option-cases (placeholder (c ∷ cs))) [
    | inl e ↦
        step_text n c cs e
        ∙ (ap (λ t. c ∷ t) (same_result n m cs (omega arith) (omega arith))
            ∙ sym (step_text m c cs e))
    | inr (found, e) ↦
        let less = placeholder_shorter (c ∷ cs) found e in
        step_placeholder n c cs found e
        ∙ (ap (λ t. value_text (variables found.key) ++ t)
              (same_result n m found.rest (omega arith) (omega arith))
            ∙ sym (step_placeholder m c cs found e))
  ]

  -- The scan needs no more steps than the template has characters: with any larger number of
  -- steps the result is the same.
  render_from_fuel :
      (n : ℕ) (t : Text) → length t ≤ n → render_from n variables t ≡ render t variables
  unfolding render
  render_from_fuel n t h = same_result n (length t) t h (omega arith)

  pub render_text :
      (c : ℕ) (cs : Text)
      → placeholder (c ∷ cs) ≡ none
      → render (c ∷ cs) variables ≡ c ∷ render cs variables
  unfolding render
  render_text c cs e = step_text (length cs) c cs e

  pub render-placeholder :
      (c : ℕ) (cs : Text) (m : Placeholder)
      → placeholder (c ∷ cs) ≡ some m
      → render (c ∷ cs) variables ≡ value_text (variables m.key) ++ render m.rest variables
  unfolding render
  render-placeholder c cs m e =
      let less = placeholder_shorter (c ∷ cs) m e in
      step_placeholder (length cs) c cs m e
      ∙ ap (λ t. value_text (variables m.key) ++ t)
          (render_from_fuel (length cs) m.rest (omega arith))
