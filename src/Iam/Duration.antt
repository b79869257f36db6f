-- ===== src/Iam/Duration.antt =====
-- `addDuration` of src/modules/iam/auth.service.ts: durations such as "15m" and "30d".
use fsf_acreditation_backend.Base.{
  ℕ, ◌+◌, ◌-◌, ◌*◌, Bool, Option, none, some, [], ◌∷◌, ◌&&◌, ◌||◌, ◌==◌, nat_eq, leb, if◌then◌else◌,
}
use fsf_acreditation_backend.Store.{Text}
use mathlib.Core.List.{reverse}

abbrev pub is_space : ℕ → Bool
is_space c = c == b' ' || (leb 9 c && leb c 13)

abbrev pub is_digit : ℕ → Bool
is_digit c = leb b'0' c && leb c b'9'

-- `trimStart`
unfoldable pub trim_start : Text → Text
trim_start [] = []
trim_start (c ∷ cs) = if is_space c then trim_start cs else c ∷ cs

-- `trim`
unfoldable pub trim : Text → Text
unfolding trim_start
trim t = reverse (trim_start (reverse (trim_start t)))

-- The milliseconds of a unit, if the character is one.
abbrev pub unit_ms : ℕ → Option ℕ
unit_ms c =
    if c == b's'
    then some 1000
    else if c == b'm'
    then some 60000
    else if c == b'h'
    then some 3600000
    else if c == b'd'
    then some 86400000
    else none

-- `/^(\d+)([smhd])$/`, after at least one digit: the digits read so far, and the product with the
-- unit at the end of the text.
unfoldable pub match_unit : ℕ → Text → Option ℕ
match_unit value [] = none
match_unit value (c ∷ []) = elim (unit_ms c) [ none ↦ none | some ms ↦ some (value * ms) ]
match_unit value (c ∷ d ∷ rest) =
    let more = match_unit (value * 10 + (c - b'0')) (d ∷ rest) in if is_digit c then more else none

-- The same from the start: the first character must be a digit.
unfoldable pub match_duration : Text → Option ℕ
unfolding match_unit
match_duration [] = none
match_duration (c ∷ rest) = if is_digit c then match_unit (c - b'0') rest else none

abbrev pub default_duration : ℕ
default_duration = 30 * 24 * 60 * 60 * 1000

-- `addDuration`
unfoldable pub add_duration : ℕ → Text → ℕ
unfolding trim match_duration
add_duration base duration = elim (match_duration (trim duration)) [
  | none ↦ base + default_duration
  | some ms ↦ base + ms
]
