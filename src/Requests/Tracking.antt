-- ===== src/Requests/Tracking.antt =====
-- What the public tracking of a request tells to whom.
use fsf_acreditation_backend.Base.{
  ◌≡◌, ◌⊎◌, refl, ◌∙◌, true, false, not, Option, none, some, nat_eq, list_eq, arith, Bool-cases,
  Option-cases, inl, inr, ◌==◌,
}
use fsf_acreditation_backend.Kernel.Errors.{ErrorCode, ErrorKind, throws}
use fsf_acreditation_backend.Store.{
  Prisma, Database, ok, err, Outcome, Text, AccreditationRequest, User, RequestStatus,
  request_status_eq, find_unique-true, or_throw_rule, throw_if_rule, or_throw-none, or_throw-some,
  throw_if-true,
}
use fsf_acreditation_backend.Iam.Users.{to_lower_case}
use fsf_acreditation_backend.Requests.Queries.{
  TrackRequestResult, reference_key, account_of_requester, is_email_of, track_found, track_request,
}

module _ (db : Prisma) where
  -- A request with this reference whose requester has this address, up to capital letters.
  abbrev pub Owned : Database → Text → Text → AccreditationRequest → Type 0
  Owned s reference email r =
      (db.find_unique (reference_key reference) s.requests ≡ some r)
      × ((u : User) × (account_of_requester db s r.requester_id ≡ some u)
          × (to_lower_case u.email ≡ to_lower_case email))

  -- What an answer can tell: the status of the request that is owned, and the reason of its
  -- decision if it was rejected, never else.
  abbrev pub Tells : Database → Text → Text → Outcome TrackRequestResult → Type 0
  Tells s reference email (ok t, s') =
      ((r : AccreditationRequest) × Owned s reference email r
        × (t.unique_reference ≡ reference)
        × (t.status ≡ r.status)
        × ((t.decision_reason ≡ none)
            ⊎ ((r.status ≡ RequestStatus.rejected) × (t.decision_reason ≡ r.decision_reason))))
      × (s' ≡ s)
  Tells s reference email (err f, s') = s' ≡ s

  email_of :
      (email : Text) (o : Option User)
      → not (is_email_of email o) ≡ false
      → (u : User) × (o ≡ some u) × (to_lower_case u.email ≡ to_lower_case email)
  email_of email none h = ground arith
  email_of email (some u) h = (u, refl, ground arith)

  found-Tells :
      (reference email : Text) (s : Database) (r : AccreditationRequest)
      → db.find_unique (reference_key reference) s.requests ≡ some r
      → Tells s reference email (track_found db email r s)
  unfolding track_found
  found-Tells reference email s r found =
      throw_if_rule (Tells s reference email) _ _ _ s (λ other. refl)
        λ same.
          or_throw_rule (Tells s reference email) _ _ _ s (λ gone. refl)
            λ m found_m.
              or_throw_rule (Tells s reference email) _ _ _ s (λ gone. refl)
                λ c found_c. (
                  (
                    r,
                    (found, email_of email (account_of_requester db s r.requester_id) same),
                    ground
                        (arith, find_unique-true db (reference_key reference) s.requests r found),
                    refl,
                    elim (Bool-cases (r.status == RequestStatus.rejected)) [
                      | inl e ↦ inr (ground arith, rw e refl)
                      | inr e ↦ inl (rw e refl)
                    ],
                  ),
                  refl,
                )

  stranger :
      (email : Text) (s : Database) (r : AccreditationRequest)
      → not (is_email_of email (account_of_requester db s r.requester_id)) ≡ true
      → track_found db email r s ≡ (err (throws ErrorCode.request_not_found ErrorKind.not_found), s)
  unfolding track_found
  stranger email s r other = throw_if-true _ _ s other

  -- The tracking writes nothing. If it answers, the requester of the request with this reference
  -- has this address, up to capital letters, and the answer holds the status of the request, and
  -- its reason only of a rejection. Where no request with this reference has a requester with
  -- this address, the answer is the same error, whether the reference exists or not.
  pub track_request-Tells :
      (reference email : Text) (s : Database)
      → Tells s reference email (track_request db reference email s)
        × (((r : AccreditationRequest) × Owned s reference email r)
            ⊎ (track_request db reference email s
                ≡ (err (throws ErrorCode.request_not_found ErrorKind.not_found), s)))
  unfolding track_request
  track_request-Tells reference email s = (
    or_throw_rule (Tells s reference email) _ _ _ s (λ missing. refl)
        (λ r found. found-Tells reference email s r found),
    elim (Option-cases (db.find_unique (reference_key reference) s.requests)) [
      | inl missing ↦ inr (or_throw-none _ _ s missing)
      | inr (r, found) ↦
          elim (Bool-cases (not (is_email_of email (account_of_requester db s r.requester_id)))) [
            | inl other ↦ inr (or_throw-some _ _ s found ∙ stranger email s r other)
            | inr same ↦
                inl (r, (found, email_of email (account_of_requester db s r.requester_id) same))
          ]
    ],
  )
