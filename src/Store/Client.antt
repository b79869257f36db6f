-- ===== src/Store/Client.antt =====
-- The queries that the services send through the Prisma client, on the rows of one table.
use mathlib.Core.Option
use fsf_acreditation_backend.Base.{
  ℕ, ◌≡◌, refl, Bool, true, false, arith, Option, some, none, List, ◌∷◌, find, count, update,
  select, apply_if, is_some, find-is_some, find-true, find-update, find-All, All,
  count_of_find-some, ◌≤◌,
}

-- The client and the database behind it are not code of the repository: they are a parameter of
-- every operation, with the documented meaning of each query. `find_first` names no order, so
-- nothing is assumed of which matching row it returns. `create` is the insert of a row that breaks
-- no constraint of the schema: an operation that can break one tests it first and throws, and the
-- others have read the rows that they refer to.
pub record Prisma : Type 1 where
  pub find_unique : {Row : Type 0} → (Row → Bool) → List Row → Option Row
  pub find_first : {Row : Type 0} → (Row → Bool) → List Row → Option Row
  pub find_many : {Row : Type 0} → (Row → Bool) → List Row → List Row
  pub count_rows : {Row : Type 0} → (Row → Bool) → List Row → ℕ
  pub create : {Row : Type 0} → Row → List Row → List Row
  pub update_rows : {Row : Type 0} → (Row → Bool) → (Row → Row) → List Row → List Row
  -- Under a key that the schema declares unique there is one row to find at most.
  pub find_unique_lem :
      {Row : Type 0} (p : Row → Bool) (rows : List Row) → find_unique p rows ≡ find p rows
  pub find_first-true :
      {Row : Type 0} (p : Row → Bool) (rows : List Row) (r : Row)
      → find_first p rows ≡ some r
      → p r ≡ true
  -- What it returns is a row of the table.
  pub find_first-All :
      {Row : Type 0} (P : Row → Type 0) (p : Row → Bool) (rows : List Row) (r : Row)
      → find_first p rows ≡ some r
      → All P rows
      → P r
  pub find_first-count :
      {Row : Type 0} (p : Row → Bool) (rows : List Row) (r : Row)
      → find_first p rows ≡ some r
      → 1 ≤ count p rows
  pub find_first-none :
      {Row : Type 0} (p : Row → Bool) (rows : List Row)
      → find_first p rows ≡ none
      → find p rows ≡ none
  pub find_many_lem :
      {Row : Type 0} (p : Row → Bool) (rows : List Row) → find_many p rows ≡ select p rows
  pub count_rows_lem :
      {Row : Type 0} (p : Row → Bool) (rows : List Row) → count_rows p rows ≡ count p rows
  pub create_lem : {Row : Type 0} (r : Row) (rows : List Row) → create r rows ≡ r ∷ rows
  pub update_rows_lem :
      {Row : Type 0} (p : Row → Bool) (f : Row → Row) (rows : List Row)
      → update_rows p f rows ≡ update p f rows

-- A client that keeps its tables as lists meets the assumptions.
unfoldable pub in_memory : Prisma
unfolding find count update select
in_memory = record {
  find_unique = find;
  find_first = find;
  find_many = select;
  count_rows = count;
  create = ◌∷◌;
  update_rows = update;
  find_unique_lem = λ p rows. refl;
  find_first-true = λ p rows r h. find-true p rows h;
  find_first-All = λ P p rows r h a. find-All P p rows h a;
  find_first-count = λ p rows r h. count_of_find-some p rows h;
  find_first-none = λ p rows h. h;
  find_many_lem = λ p rows. refl;
  count_rows_lem = λ p rows. refl;
  create_lem = λ r rows. refl;
  update_rows_lem = λ p f rows. refl;
}

module _ (db : Prisma) {Row : Type 0} where
  -- What a query by a key finds has that key.
  pub find_unique-true :
      (p : Row → Bool) (rows : List Row) (r : Row) → db.find_unique p rows ≡ some r → p r ≡ true
  find_unique-true p rows r h = find-true p rows (rw (db.find_unique_lem p rows) at h)

  -- A write that does not change the key of a query changes the row that it finds in place.
  pub find_unique-update_rows :
      (q p : Row → Bool) (f : Row → Row) (rows : List Row)
      → ((x : Row) → p x ≡ true → q (f x) ≡ q x)
      → db.find_unique q (db.update_rows p f rows)
        ≡ Option.map (apply_if p f) (db.find_unique q rows)
  find_unique-update_rows q p f rows h =
      rw
        (
          db.update_rows_lem p f rows,
          db.find_unique_lem q (update p f rows),
          db.find_unique_lem q rows,
        )
        (find-update q p f rows h)

  -- A write through the key itself.
  pub find_unique-update_rows_self :
      (p : Row → Bool) (f : Row → Row) (rows : List Row) (r : Row)
      → ((x : Row) → p x ≡ true → p (f x) ≡ true)
      → db.find_unique p rows ≡ some r
      → db.find_unique p (db.update_rows p f rows) ≡ some (f r)
  find_unique-update_rows_self p f rows r h e =
      rw (find_unique-update_rows p p f rows (λ x t. rw t (h x t)), e, find_unique-true p rows r e)
        refl

  -- A new row that a query does not see.
  pub find_unique-create_other :
      (p : Row → Bool) (r : Row) (rows : List Row)
      → p r ≡ false
      → db.find_unique p (db.create r rows) ≡ db.find_unique p rows
  unfolding find
  find_unique-create_other p r rows h =
      rw (db.create_lem r rows, db.find_unique_lem p (r ∷ rows), db.find_unique_lem p rows)
        (ground (arith, h))

  -- A new row that a query sees.
  pub find_unique-create :
      (p : Row → Bool) (r : Row) (rows : List Row)
      → p r ≡ true
      → db.find_unique p (db.create r rows) ≡ some r
  unfolding find
  find_unique-create p r rows h =
      rw (db.create_lem r rows, db.find_unique_lem p (r ∷ rows)) (ground (arith, h))

  -- Whether a foreign key has its row, and one that may be empty.
  abbrev pub has_row : (Row → Bool) → List Row → Bool
  has_row p rows = is_some (db.find_unique p rows)

  abbrev pub has_optional_row : (ℕ → Row → Bool) → Option ℕ → List Row → Bool
  has_optional_row key none rows = true
  has_optional_row key (some id) rows = has_row (key id) rows

  pub has_row-found :
      (q p : Row → Bool) (rows : List Row) (r : Row)
      → db.find_unique q rows ≡ some r
      → p r ≡ true
      → has_row p rows ≡ true
  has_row-found q p rows r h t =
      rw (db.find_unique_lem p rows)
        (find-is_some q p rows {x = r} (rw (db.find_unique_lem q rows) at h) t)
