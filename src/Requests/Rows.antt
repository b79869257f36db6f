-- ===== src/Requests/Rows.antt =====
-- What every write to the table of requests keeps.
use mathlib.Core.Option.{some-injective, none-ne-some}
use fsf_acreditation_backend.Base.{
  ◌≡◌, refl, sym, ap, subst, ◌∙◌, Bool, true, false, List, none, some, arith, nat_eq, apply_if,
  Bool-cases, inl, inr,
}
use fsf_acreditation_backend.Store.{
  Prisma, AccreditationRequest, Uuid, request_key, find_unique-true, find_unique-update_rows,
  find_unique-create_other,
}
use fsf_acreditation_backend.Requests.Machine.{◌⟶*◌, here, ⟶*_trans}

-- The same request later: its owner, its match and its reference are kept, and its status has
-- followed allowed transitions.
pub record Continues (r r' : AccreditationRequest) : Type 0 where
  pub path : r.status ⟶* r'.status
  pub id : r'.id ≡ r.id
  pub owner : r'.requester_id ≡ r.requester_id
  pub same_match : r'.match_id ≡ r.match_id
  pub reference : r'.unique_reference ≡ r.unique_reference

pub Continues-refl : (r : AccreditationRequest) → Continues r r
Continues-refl r = record {
  path = here;
  id = refl;
  owner = refl;
  same_match = refl;
  reference = refl;
}

pub Continues-trans : {r s t : AccreditationRequest} → Continues r s → Continues s t → Continues r t
Continues-trans a b = record {
  path = ⟶*_trans a.path b.path;
  id = b.id ∙ a.id;
  owner = b.owner ∙ a.owner;
  same_match = b.same_match ∙ a.same_match;
  reference = b.reference ∙ a.reference;
}

module _ (db : Prisma) where
  -- Every request of a table is in a later table, and continues there.
  abbrev pub RowsContinue : List AccreditationRequest → List AccreditationRequest → Type 0
  RowsContinue rows rows' =
      (id : Uuid) (r : AccreditationRequest)
      → db.find_unique (request_key id) rows ≡ some r
      → (r' : AccreditationRequest) × (db.find_unique (request_key id) rows' ≡ some r')
        × Continues r r'

  pub RowsContinue-refl : (rows : List AccreditationRequest) → RowsContinue rows rows
  RowsContinue-refl rows id r h = (r, h, Continues-refl r)

  pub RowsContinue-eq :
      {rows rows' : List AccreditationRequest} → rows' ≡ rows → RowsContinue rows rows'
  RowsContinue-eq {rows} e = subst (RowsContinue rows) (sym e) (RowsContinue-refl rows)

  pub RowsContinue-trans :
      {a b c : List AccreditationRequest} → RowsContinue a b → RowsContinue b c → RowsContinue a c
  RowsContinue-trans p q id r h =
      let (r1, h1, c1) = p id r h in
      let (r2, h2, c2) = q id r1 h1 in (r2, h2, Continues-trans c1 c2)

  -- Two rows that queries by key find are one, if they have one key.
  pub found_once :
      (i j : Uuid) (rows : List AccreditationRequest) (x r : AccreditationRequest)
      → db.find_unique (request_key i) rows ≡ some x
      → db.find_unique (request_key j) rows ≡ some r
      → request_key j x ≡ true
      → x ≡ r
  found_once i j rows x r h found same =
      some-injective x r (sym h ∙ (ap (λ k. db.find_unique (request_key k) rows) i_eq_j ∙ found))
    where
      i_eq_j : i ≡ j
      i_eq_j = ground (arith, find_unique-true db (request_key i) rows x h)

  -- A write to the request under a key.
  pub RowsContinue-update :
      (j : Uuid) (f : AccreditationRequest → AccreditationRequest)
      (rows : List AccreditationRequest) (r : AccreditationRequest)
      → ((x : AccreditationRequest) → (f x).id ≡ x.id)
      → db.find_unique (request_key j) rows ≡ some r
      → Continues r (f r)
      → RowsContinue rows (db.update_rows (request_key j) f rows)
  RowsContinue-update j f rows r ids found kept id x h = (
    apply_if (request_key j) f x,
    rw
        (
          find_unique-update_rows db (request_key id) (request_key j) f rows
              (λ y k. rw (ids y) refl),
          h,
        )
        refl,
    elim (Bool-cases (request_key j x)) [
      | inl hit ↦
          rw hit (subst (λ y. Continues y (f y)) (sym (found_once id j rows x r h found hit)) kept)
      | inr other ↦ rw other (Continues-refl x)
    ],
  )

  -- A write under which every request continues.
  pub RowsContinue-map :
      (p : AccreditationRequest → Bool) (f : AccreditationRequest → AccreditationRequest)
      (rows : List AccreditationRequest)
      → ((x : AccreditationRequest) → Continues x (f x))
      → RowsContinue rows (db.update_rows p f rows)
  RowsContinue-map p f rows kept id x h = (
    apply_if p f x,
    rw (find_unique-update_rows db (request_key id) p f rows (λ y k. rw ((kept y).id) refl), h)
        refl,
    elim (Bool-cases (p x)) [ inl hit ↦ rw hit (kept x) | inr other ↦ rw other (Continues-refl x) ],
  )

  -- A row of the table does not have the key of a new one.
  pub other_key :
      (new : AccreditationRequest) (rows : List AccreditationRequest)
      → db.find_unique (request_key new.id) rows ≡ none
      → (id : Uuid) (x : AccreditationRequest) → db.find_unique (request_key id) rows ≡ some x
      → request_key id new ≡ false
  other_key new rows fresh id x h = elim (Bool-cases (request_key id new)) [
    | inl same ↦ absurd (
        none-ne-some x
          (sym fresh ∙ (ap (λ k. db.find_unique (request_key k) rows) (ground arith) ∙ h)))
    | inr differs ↦ differs
  ]

  -- A new request, under a key that no row has.
  pub RowsContinue-create :
      (new : AccreditationRequest) (rows : List AccreditationRequest)
      → db.find_unique (request_key new.id) rows ≡ none
      → RowsContinue rows (db.create new rows)
  RowsContinue-create new rows fresh id x h = (
    x,
    find_unique-create_other db (request_key id) new rows (other_key new rows fresh id x h) ∙ h,
    Continues-refl x,
  )
