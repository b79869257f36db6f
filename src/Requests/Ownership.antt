-- ===== src/Requests/Ownership.antt =====
-- Writes that concern the requests of one requester only.
use fsf_acreditation_backend.Base.{
  ◌≡◌, ◌≢◌, refl, sym, ap, subst, ◌∙◌, none, some, List, All, nat_eq, Bool-cases, inl, inr,
}
use fsf_acreditation_backend.Store.{
  Prisma, Database, Outcome, Action, ◌>>=◌, then_rule, Result, Uuid, AccreditationRequest,
  request_key, find_unique-update_rows, find_unique-create_other,
}
use fsf_acreditation_backend.Requests.Rows.{found_once, other_key}

module _ (db : Prisma) (owner : Uuid) where
  -- The requests of everybody else are the same rows.
  abbrev pub OthersStay : List AccreditationRequest → List AccreditationRequest → Type 0
  OthersStay rows rows' =
      (id : Uuid) (r : AccreditationRequest)
      → db.find_unique (request_key id) rows ≡ some r
      → r.requester_id ≢ owner
      → db.find_unique (request_key id) rows' ≡ some r

  -- Of a call that began at a database.
  abbrev pub Isolated : {A : Type 0} → Database → Outcome A → Type 0
  Isolated s o = OthersStay s.requests o.1.requests

  pub OthersStay-refl : (rows : List AccreditationRequest) → OthersStay rows rows
  OthersStay-refl rows id r h other = h

  pub OthersStay-eq :
      {rows rows' : List AccreditationRequest} → rows' ≡ rows → OthersStay rows rows'
  OthersStay-eq {rows} e = subst (OthersStay rows) (sym e) (OthersStay-refl rows)

  -- A write to a request of the owner.
  pub OthersStay-update :
      (j : Uuid) (f : AccreditationRequest → AccreditationRequest)
      (rows : List AccreditationRequest) (r : AccreditationRequest)
      → ((x : AccreditationRequest) → (f x).id ≡ x.id)
      → db.find_unique (request_key j) rows ≡ some r
      → r.requester_id ≡ owner
      → OthersStay rows (db.update_rows (request_key j) f rows)
  OthersStay-update j f rows r ids found mine id x h other =
      rw
        (
          find_unique-update_rows db (request_key id) (request_key j) f rows
              (λ y k. rw (ids y) refl),
          h,
        )
        (elim (Bool-cases (request_key j x)) [
          | inl hit ↦
              absurd
                (other (ap (λ y. y.requester_id) (found_once db id j rows x r h found hit) ∙ mine))
          | inr miss ↦ rw miss refl
        ])

  -- A new request, under a key that no row has.
  pub OthersStay-create :
      (new : AccreditationRequest) (rows : List AccreditationRequest)
      → db.find_unique (request_key new.id) rows ≡ none
      → OthersStay rows (db.create new rows)
  OthersStay-create new rows fresh id x h other =
      find_unique-create_other db (request_key id) new rows (other_key db new rows fresh id x h) ∙ h

  -- A call that leaves the table alone, and what follows it.
  pub stay_through :
      {A B : Type 0} (s : Database) (m : Action A) (k : A → Action B) (t : Database)
      → (m t).1.requests ≡ t.requests
      → OthersStay s.requests t.requests
      → ((a : A) (u : Database) → u.requests ≡ t.requests → Isolated s (k a u))
      → Isolated s ((m >>= k) t)
  stay_through {A} s m k t same kept next =
      then_rule (Isolated s) m k t
        (λ e u h. subst (OthersStay s.requests) (sym (requests_of h)) kept)
        (λ a u h. next a u (requests_of h))
    where
      requests_of : {r : Result A} {u : Database} → m t ≡ (r, u) → u.requests ≡ t.requests
      requests_of h = sym (ap (λ o. o.1.requests) h) ∙ same

-- No two requests have one identifier.
abbrev pub DistinctIds : Prisma → Database → Type 0
DistinctIds db s = All (λ x. db.find_unique (request_key x.id) s.requests ≡ some x) s.requests
