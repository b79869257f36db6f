-- ===== src/Kernel/Listing.antt =====
-- A page of a table: the `findMany` with `orderBy`, `skip` and `take` and the `count` beside it, as
-- every list of the services is built.
use fsf_acreditation_backend.Base.{
  ℕ, ◌≡◌, zero, suc, Bool, true, Option, none, some, List, [], ◌∷◌, length, select, ◌==◌, Eq,
}
use fsf_acreditation_backend.Store.{Prisma, Action, Database, gets}
use fsf_acreditation_backend.Kernel.Pagination.{
  PageRequest, PageResult, SkipTake, build_page_result, to_skip_take,
}

module _ {ℓ} {A : Type ℓ} where
  unfoldable pub take : ℕ → List A → List A
  take n [] = []
  take zero (x ∷ xs) = []
  take (suc n) (x ∷ xs) = x ∷ take n xs

  unfoldable pub drop : ℕ → List A → List A
  drop n [] = []
  drop zero (x ∷ xs) = x ∷ xs
  drop (suc n) (x ∷ xs) = drop n xs

-- The query of a page is a parameter: the rows that fit, in the order that the query names, less
-- those before the page, as many as the page holds.
pub record Listing (Row : Type 0) : Type 0 where
  pub order_by : List Row → List Row
  pub find_page : (Row → Bool) → SkipTake → List Row → List Row
  pub find_page_lem :
      (p : Row → Bool) (s : SkipTake) (rows : List Row)
      → find_page p s rows ≡ take s.take (drop s.skip (order_by (select p rows)))
  pub length-order_by : (rows : List Row) → length (order_by rows) ≡ length rows

-- `...(filter ? { column: filter } : {})`
abbrev pub filter_eq {ℓ} : {A : Type ℓ} ⦃e : Eq A⦄ → Option A → A → Bool
filter_eq none a = true
filter_eq (some b) a = a == b

module _ (db : Prisma) {Row : Type 0} (listing : Listing Row) where
  unfoldable pub list_page :
      (Database → List Row) → (Row → Bool) → PageRequest → Action (PageResult Row)
  unfolding build_page_result to_skip_take
  list_page table p page = gets (λ s.
      build_page_result (listing.find_page p (to_skip_take page) (table s))
        (db.count_rows p (table s)) page)
