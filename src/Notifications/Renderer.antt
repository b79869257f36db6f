-- ===== src/Notifications/Renderer.antt =====
-- src/infrastructure/mail/template-renderer.service.ts: the replacement of every match of
-- `/\{\{\s*([\w.]+)\s*\}\}/g` by the value of the variable.
use fsf_acreditation_backend.Base.{
  ℕ, zero, suc, Bool, Option, none, some, [], ◌∷◌, ◌++◌, ◌&&◌, ◌||◌, ◌==◌, nat_eq, leb, length,
  if◌then◌else◌,
}
use fsf_acreditation_backend.Store.{Text}

-- `\s`
unfoldable pub is_space : ℕ → Bool
is_space c =
    (leb 9 c && leb c 13)
    || c == 32
    || c == 160
    || c == 5760
    || (leb 8192 c && leb c 8202)
    || c == 8232
    || c == 8233
    || c == 8239
    || c == 8287
    || c == 12288
    || c == 65279

-- `[\w.]`
unfoldable pub is_word : ℕ → Bool
is_word c =
    (leb b'a' c && leb c b'z')
    || (leb b'A' c && leb c b'Z')
    || (leb b'0' c && leb c b'9')
    || c == b'_'
    || c == b'.'

-- A longest run of characters that pass a test, and what follows it.
pub record Run : Type 0 where
  pub taken : Text
  pub rest : Text

abbrev pub add_taken : ℕ → Run → Run
add_taken c r = record { taken = c ∷ r.taken; rest = r.rest }

unfoldable pub span : (ℕ → Bool) → Text → Run
span p [] = record { taken = []; rest = [] }
span p (c ∷ cs) =
    let more = span p cs in if p c then add_taken c more else record { taken = []; rest = c ∷ cs }

-- What follows two copies of a character.
unfoldable pub after_pair : ℕ → Text → Option Text
after_pair c [] = none
after_pair c (a ∷ []) = none
after_pair c (a ∷ b ∷ rest) = if a == c && b == c then some rest else none

-- A match: the name in it, and what follows it.
pub record Placeholder : Type 0 where
  pub key : Text
  pub rest : Text

-- The match after `{{\s*([\w.]*)`, whose name must not be empty. The characters of a name are no
-- spaces, so a shorter name never matches where the longest does not.
unfoldable pub close_placeholder : Run → Option Placeholder
unfolding span after_pair
close_placeholder name = elim name.taken [
  | [] ↦ none
  | k ∷ ks ↦ elim (after_pair b'}' (span is_space name.rest).rest) [
    | none ↦ none
    | some rest ↦ some (record { key = k ∷ ks; rest = rest })
  ]
]

-- The match at the beginning of a text.
unfoldable pub placeholder : Text → Option Placeholder
unfolding close_placeholder
placeholder t = elim (after_pair b'{' t) [
  | none ↦ none
  | some inner ↦ close_placeholder (span is_word (span is_space inner).rest)
]

-- `value === undefined || value === null ? '' : String(value)`
abbrev pub value_text : Option Text → Text
value_text none = []
value_text (some t) = t

-- The scan of `replace`, from the left; each step takes a character or more off the text.
unfoldable pub render_from : ℕ → (Text → Option Text) → Text → Text
unfolding placeholder
render_from zero variables t = t
render_from (suc fuel) variables [] = []
render_from (suc fuel) variables (c ∷ cs) = elim (placeholder (c ∷ cs)) [
  | none ↦ c ∷ render_from fuel variables cs
  | some m ↦ value_text (variables m.key) ++ render_from fuel variables m.rest
]

-- `render`
unfoldable pub render : Text → (Text → Option Text) → Text
unfolding render_from
render template variables = render_from (length template) variables template
