-- ===== src/Competitions/Window.antt =====
-- When a match accepts requests.
use fsf_acreditation_backend.Base.{◌≤◌, ◌≡◌, ◌↔◌, refl, false, Option, none, some, arith}
use fsf_acreditation_backend.Store.{
  Database, ok, throw_if, Instant, Match, MatchStatus, match_status_eq,
}
use fsf_acreditation_backend.Competitions.Matches.{assert_accepting_requests, is_before, is_after}

abbrev pub NotBefore : Instant → Option Instant → Type 0
NotBefore now none = Unit
NotBefore now (some t) = t ≤ now

abbrev pub NotAfter : Instant → Option Instant → Type 0
NotAfter now none = Unit
NotAfter now (some t) = now ≤ t

-- The match is open for requests, and the time is in its window, both ends included.
pub record Accepting (now : Instant) (m : Match) : Type 0 where
  pub is_open : m.status ≡ MatchStatus.open_for_requests
  pub opened : NotBefore now m.requests_open_at
  pub not_closed : NotAfter now m.requests_close_at

is_before-NotBefore :
    (now : Instant) (o : Option Instant) → (is_before now o ≡ false) ↔ NotBefore now o
is_before-NotBefore now none = (λ h. tt, λ h. refl)
is_before-NotBefore now (some t) = (λ h. ground arith, λ h. ground arith)

is_after-NotAfter : (now : Instant) (o : Option Instant) → (is_after now o ≡ false) ↔ NotAfter now o
is_after-NotAfter now none = (λ h. tt, λ h. refl)
is_after-NotAfter now (some t) = (λ h. ground arith, λ h. ground arith)

-- The guard on submissions lets a call pass exactly if the match is open for requests and the
-- time is neither before the opening nor after the closing of its window, where these are set.
pub assert_accepting_requests_iff :
    (now : Instant) (m : Match) (s : Database)
    → (assert_accepting_requests now m s ≡ (ok tt, s)) ↔ Accepting now m
unfolding assert_accepting_requests throw_if
assert_accepting_requests_iff now m s =
    let (before_of, of_before) = is_before-NotBefore now m.requests_open_at in
    let (after_of, of_after) = is_after-NotAfter now m.requests_close_at in
    (
      λ h. record {
        is_open = ground arith;
        opened = before_of (ground arith);
        not_closed = after_of (ground arith);
      },
      λ a. ground (arith, a.is_open, of_before a.opened, of_after a.not_closed),
    )
