-- ===== src/Competitions/Closing.antt =====
-- What the task that closes matches leaves.
use mathlib.Core.Bool.{true≢false}
use mathlib.Core.Option.{none-ne-some}
use fsf_acreditation_backend.Base.{
  ◌⊎◌, none, ◌==◌, find, find-All, find-true, Option-cases, ◌≡◌, ◌<◌, some, refl, sym, subst, ◌∙◌,
  inl, inr, Bool, true, false, nat_eq, List, [], ◌∷◌, map, arith, All, All-map, update, select,
  includes, Bool-cases,
}
use fsf_acreditation_backend.Store.{
  Prisma, Database, ok, Instant, Match, MatchStatus, match_status_eq, match_key, Uuid,
  find_unique-true, find_unique-update_rows,
}
use fsf_acreditation_backend.Competitions.Matches.{is_expired, close_matches, close_expired_matches}

-- An expired match is one of those that are still to be closed.
abbrev Awaiting : Instant → List Match → Match → Type 0
Awaiting now ms r = is_expired now r ≡ true → includes (map (λ m. m.id) ms) r.id ≡ true

module _ (now : Instant) where
  pending_more :
      (m : Match) (ms : List Match) (rows : List Match)
      → All (Awaiting now ms) rows
      → All (Awaiting now (m ∷ ms)) rows
  pending_more m ms rows a = All-map _ _ rows (λ r h e. ground (arith, h e)) a

  select_yes :
      (p : Match → Bool) (m : Match) (rows : List Match)
      → p m ≡ true
      → select p (m ∷ rows) ≡ m ∷ select p rows
  unfolding select
  select_yes p m rows e = rw e refl

  select_no :
      (p : Match → Bool) (m : Match) (rows : List Match)
      → p m ≡ false
      → select p (m ∷ rows) ≡ select p rows
  unfolding select
  select_no p m rows e = rw e refl

  select-Awaiting : (rows : List Match) → All (Awaiting now (select (is_expired now) rows)) rows
  select-Awaiting [] = tt
  select-Awaiting (m ∷ rows) = elim (Bool-cases (is_expired now m)) [
    | inl e ↦
        subst (λ ms. All (Awaiting now ms) (m ∷ rows)) (sym (select_yes (is_expired now) m rows e))
          ((λ h. ground arith), pending_more m _ rows (select-Awaiting rows))
    | inr e ↦
        subst (λ ms. All (Awaiting now ms) (m ∷ rows)) (sym (select_no (is_expired now) m rows e))
          ((λ h. absurd (true≢false (sym h ∙ e))), select-Awaiting rows)
  ]

  none_pending :
      (rows : List Match) → All (Awaiting now []) rows → All (λ r. is_expired now r ≡ false) rows
  none_pending rows a = All-map _ _ rows (λ r h. ground (arith, h)) a

module _ (db : Prisma) (now : Instant) where
  close-Awaiting :
      (m : Match) (ms : List Match) (rows : List Match)
      → All (Awaiting now (m ∷ ms)) rows
      → All
          (Awaiting now ms)
          (db.update_rows (match_key m.id) (λ r. record r { status = MatchStatus.closed }) rows)
  unfolding update
  close-Awaiting m ms rows a =
      rw (db.update_rows_lem (match_key m.id) (λ r. record r { status = MatchStatus.closed }) rows)
        (All-map _ _ _ (λ r h. h) (closed_rows rows a))
    where
      closed_rows :
          (rows : List Match)
          → All (Awaiting now (m ∷ ms)) rows
          → All
              (Awaiting now ms)
              (update (match_key m.id) (λ r. record r { status = MatchStatus.closed }) rows)
      closed_rows [] a = tt
      closed_rows (r ∷ rows) a = (ground (arith, a.0), closed_rows rows a.1)

  close_matches-All :
      (ms : List Match) (s : Database)
      → All (Awaiting now ms) s.matches
      → ((close_matches db ms s).0 ≡ ok tt)
        × All (λ r. is_expired now r ≡ false) (close_matches db ms s).1.matches
  unfolding close_matches
  close_matches-All [] s a = (refl, none_pending now s.matches a)
  close_matches-All (m ∷ ms) s a = close_matches-All ms _ (close-Awaiting m ms s.matches a)

  -- A match that accepts requests, after the end of its window.
  abbrev pub IsOverdue : Match → Type 0
  IsOverdue m =
      (m.status ≡ MatchStatus.open_for_requests)
      × ((t : Instant) × (m.requests_close_at ≡ some t) × (t < now))

  overdue-is_expired : (m : Match) → IsOverdue m → is_expired now m ≡ true
  overdue-is_expired m (open_one, (t, ends, past)) = ground (arith, open_one, ends, past)

  expired-IsOverdue : (m : Match) → is_expired now m ≡ true → IsOverdue m
  expired-IsOverdue m h = elim (Option-cases m.requests_close_at) [
    | inl e ↦ absurd (true≢false (sym h ∙ rw e (ground arith)))
    | inr (t, e) ↦ (ground arith, (t, e, ground (arith, h, e)))
  ]

  select_keeps :
      (P : Match → Type 0) (rows : List Match)
      → All P rows
      → All (λ m. P m × IsOverdue m) (select (is_expired now) rows)
  unfolding select
  select_keeps P [] a = tt
  select_keeps P (m ∷ rows) a = elim (Bool-cases (is_expired now m)) [
    | inl e ↦ rw e ((a.0, expired-IsOverdue m e), select_keeps P rows a.1)
    | inr e ↦ rw e (select_keeps P rows a.1)
  ]

  other_row :
      (id : Uuid) (m : Match) (rows : List Match)
      → (m.id == id) ≡ false
      → db.find_unique
          (match_key id)
          (db.update_rows (match_key m.id) (λ r. record r { status = MatchStatus.closed }) rows)
        ≡ db.find_unique (match_key id) rows
  other_row id m rows other =
      find_unique-update_rows db (match_key id) (match_key m.id)
        (λ r. record r { status = MatchStatus.closed }) rows (λ r h. refl)
      ∙ elim (Option-cases (db.find_unique (match_key id) rows)) [
        | inl e ↦ rw e refl
        | inr (r, e) ↦
            let key = find_unique-true db (match_key id) rows r e in
            let apart : (r.id == m.id) ≡ false = ground arith in rw (e, apart) refl
      ]

  other_rows :
      (id : Uuid) (ms : List Match) (s : Database)
      → find (λ m. m.id == id) ms ≡ none
      → db.find_unique (match_key id) (close_matches db ms s).1.matches
        ≡ db.find_unique (match_key id) s.matches
  unfolding close_matches find
  other_rows id [] s h = refl
  other_rows id (m ∷ ms) s h = elim (Bool-cases (m.id == id)) [
    | inl e ↦ absurd (none-ne-some m (sym (rw e at h)))
    | inr e ↦ other_rows id ms _ (rw e at h) ∙ other_row id m s.matches e
  ]

  -- The match of an identifier is as it was, or a match of that identifier was overdue.
  closed_only :
      (s : Database) (id : Uuid)
      → let s' = (close_matches db (select (is_expired now) s.matches) s).1 in
        (db.find_unique (match_key id) s'.matches ≡ db.find_unique (match_key id) s.matches)
        ⊎ (¬ All (λ r. r.id ≡ id → ¬ IsOverdue r) s.matches)
  closed_only s id =
      let expired = select (is_expired now) s.matches in
      elim (Option-cases (find (λ m. m.id == id) expired)) [
        | inl e ↦ inl (other_rows id expired s e)
        | inr (m, e) ↦ inr (λ a.
            let (none_due, due) =
              find-All _ (λ m. m.id == id) expired e (select_keeps _ s.matches a) in
            let found = find-true (λ m. m.id == id) expired e in none_due (ground arith) due)
      ]

  -- The task returns, and leaves no match open for requests after the end of its window; the match
  -- of an identifier is as it was, unless a match of that identifier was open for requests after the
  -- end of its window.
  pub close_expired_matches-All :
      (s : Database) (id : Uuid)
      → let (result, s') = close_expired_matches db now s in
        (result ≡ ok tt)
        × All (λ r. ¬ IsOverdue r) s'.matches
        × ((db.find_unique (match_key id) s'.matches ≡ db.find_unique (match_key id) s.matches)
            ⊎ (¬ All (λ r. r.id ≡ id → ¬ IsOverdue r) s.matches))
  unfolding close_expired_matches
  close_expired_matches-All s id =
      let (returned, none_left) =
        close_matches-All (db.find_many (is_expired now) s.matches) s
          (rw (db.find_many_lem (is_expired now) s.matches) (select-Awaiting now s.matches)) in
      (
        returned,
        All-map _ _ _ (λ r h overdue. true≢false (sym (overdue-is_expired r overdue) ∙ h))
            none_left,
        rw (db.find_many_lem (is_expired now) s.matches) (closed_only s id),
      )
