-- ===== src/Notifications/Pieces.antt =====
-- Templates as their authors write them: literal text, and variables between braces.
use fsf_acreditation_backend.Base.{
  ℕ, zero, suc, ◌≤◌, ◌≡◌, ◌≢◌, refl, ap, ◌∙◌, Bool, true, false, Option, none, some, List, [], ◌∷◌,
  ◌++◌, nat_eq, arith, length, All, ℕ_discrete,
}
use fsf_acreditation_backend.Store.{Text}
use fsf_acreditation_backend.Accreditations.Numbering.{replicate}
use fsf_acreditation_backend.Notifications.Renderer.{
  is_space, is_word, span, after_pair, close_placeholder, placeholder, value_text, render,
}
use fsf_acreditation_backend.Notifications.Rendering.{render_text, render-placeholder}

-- Literal text, or a variable with the blanks before and after its name.
pub data Piece : Type 0 where
  literal : Text → Piece
  variable : (before : ℕ) (key : Text) (after : ℕ) → Piece

-- Literal text holds no opening brace; a name is not empty and has only the characters of names.
abbrev pub IsPiece : Piece → Type 0
IsPiece (literal t) = All (λ c. c ≢ b'{') t
IsPiece (variable before key after) = (1 ≤ length key) × All (λ c. is_word c ≡ true) key

-- `key`, blanks and closing braces, then the rest of the template.
abbrev pub closing : Text → ℕ → Text → Text
closing key after rest = key ++ (replicate after 32 ++ (b'}' ∷ b'}' ∷ rest))

-- The template that the pieces make, and what is to be sent for them.
unfoldable pub print : List Piece → Text
print [] = []
print (literal t ∷ ps) = t ++ print ps
print (variable before key after ∷ ps) =
    b'{' ∷ b'{' ∷ (replicate before 32 ++ closing key after (print ps))

unfoldable pub fill : (Text → Option Text) → List Piece → Text
fill variables [] = []
fill variables (literal t ∷ ps) = t ++ fill variables ps
fill variables (variable before key after ∷ ps) = value_text (variables key) ++ fill variables ps

-- A run stops where the text ends or its next character does not pass.
abbrev Stops : (ℕ → Bool) → Text → Type 0
Stops p [] = Unit
Stops p (c ∷ cs) = p c ≡ false

span_stop :
    (p : ℕ → Bool) (rest : Text) → Stops p rest → span p rest ≡ record { taken = []; rest = rest }
unfolding span
span_stop p [] h = refl
span_stop p (c ∷ cs) h = rw h refl

span_run :
    (p : ℕ → Bool) (run rest : Text)
    → All (λ c. p c ≡ true) run
    → Stops p rest
    → span p (run ++ rest) ≡ record { taken = run; rest = rest }
unfolding span
span_run p [] rest a h = span_stop p rest h
span_run p (c ∷ cs) rest a h = rw (a.0, span_run p cs rest a.1 h) refl

blanks-All : (n : ℕ) → All (λ c. is_space c ≡ true) (replicate n 32)
unfolding is_space ℕ_discrete
blanks-All zero = tt
blanks-All (suc n) = (refl, blanks-All n)

word_no_space : (c : ℕ) → is_word c ≡ true → is_space c ≡ false
unfolding is_word is_space
word_no_space c h = ground arith

closing-Stops : (n : ℕ) (rest : Text) → Stops is_word (replicate n 32 ++ (b'}' ∷ b'}' ∷ rest))
unfolding is_word ℕ_discrete
closing-Stops zero rest = refl
closing-Stops (suc n) rest = refl

key-Stops :
    (key rest : Text)
    → 1 ≤ length key
    → All (λ c. is_word c ≡ true) key
    → Stops is_space (key ++ rest)
key-Stops [] rest h a = absurd (omega arith)
key-Stops (k ∷ ks) rest h a = word_no_space k a.0

braces_stop : (rest : Text) → Stops is_space (b'}' ∷ b'}' ∷ rest)
unfolding is_space ℕ_discrete
braces_stop rest = refl

-- The closing half of a variable.
close_written :
    (key : Text) (after : ℕ) (rest : Text)
    → 1 ≤ length key
    → close_placeholder (record { taken = key; rest = replicate after 32 ++ (b'}' ∷ b'}' ∷ rest) })
      ≡ some (record { key = key; rest = rest })
unfolding close_placeholder ℕ_discrete
close_written [] after rest h = absurd (omega arith)
close_written (k ∷ ks) after rest h =
    rw
      (
        close_placeholder,
        span_run is_space (replicate after 32) (b'}' ∷ b'}' ∷ rest) (blanks-All after)
            (braces_stop rest),
      )
      refl

-- A variable as it is written is matched as a whole.
placeholder_written :
    (before : ℕ) (key : Text) (after : ℕ) (rest : Text)
    → 1 ≤ length key
    → All (λ c. is_word c ≡ true) key
    → placeholder (b'{' ∷ b'{' ∷ (replicate before 32 ++ closing key after rest))
      ≡ some (record { key = key; rest = rest })
unfolding placeholder ℕ_discrete
placeholder_written before key after rest long word =
    rw
      (
        span_run is_space (replicate before 32) (closing key after rest) (blanks-All before)
            (key-Stops key _ long word),
        span_run is_word key (replicate after 32 ++ (b'}' ∷ b'}' ∷ rest)) word
            (closing-Stops after rest),
      )
      (close_written key after rest long)

-- A character that opens no brace is no match.
no_placeholder : (c : ℕ) (cs : Text) → c ≢ b'{' → placeholder (c ∷ cs) ≡ none
unfolding placeholder
no_placeholder c [] h = refl
no_placeholder c (d ∷ cs) h = rw (placeholder, missed c d cs h) refl
  where
    missed : (c d : ℕ) (cs : Text) → c ≢ b'{' → after_pair b'{' (c ∷ d ∷ cs) ≡ none
    missed c d cs h = ground arith

module _ (variables : Text → Option Text) where
  render_empty : render [] variables ≡ []
  unfolding render
  render_empty = refl

  render_literal :
      (t rest : Text)
      → All (λ c. c ≢ b'{') t
      → render (t ++ rest) variables ≡ t ++ render rest variables
  render_literal [] rest a = refl
  render_literal (c ∷ cs) rest a =
      render_text variables c (cs ++ rest) (no_placeholder c (cs ++ rest) a.0)
      ∙ ap (λ t. c ∷ t) (render_literal cs rest a.1)

  -- The rendering of a template made of literal text without an opening brace and of variables,
  -- with any number of blanks around their names, is the text with each variable replaced by its
  -- value, or by nothing where it has none; what a value contains is not replaced again.
  pub render-print :
      (ps : List Piece) → All IsPiece ps → render (print ps) variables ≡ fill variables ps
  unfolding print fill
  render-print [] a = render_empty
  render-print (literal t ∷ ps) a =
      render_literal t (print ps) a.0 ∙ ap (λ r. t ++ r) (render-print ps a.1)
  render-print (variable before key after ∷ ps) a =
      render-placeholder variables b'{'
        (b'{' ∷ (replicate before 32 ++ closing key after (print ps)))
        (record { key = key; rest = print ps })
        (placeholder_written before key after (print ps) a.0.0 a.0.1)
      ∙ ap (λ r. value_text (variables key) ++ r) (render-print ps a.1)
