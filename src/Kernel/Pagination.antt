-- ===== src/Kernel/Pagination.antt =====
-- Pages of a list: src/shared/kernel/application/pagination.ts.
use fsf_acreditation_backend.Base.{ℕ, ◌+◌, ◌-◌, ◌*◌, ◌/◌, List}
use Prim.Native.Nat.{max}

-- The query checks that `page` and `page_size` are 1 or more.
pub record PageRequest : Type 0 where
  pub page : ℕ
  pub page_size : ℕ

pub record PageResult {ℓ} (A : Type ℓ) : Type ℓ where
  pub items : List A
  pub total : ℕ
  pub page : ℕ
  pub page_size : ℕ
  pub total_pages : ℕ

-- `Math.ceil(a / b)`, for `b` above 0.
abbrev pub ceil_div : ℕ → ℕ → ℕ
ceil_div a b = (a + (b - 1)) / b

unfoldable pub build_page_result {ℓ} : {A : Type ℓ} → List A → ℕ → PageRequest → PageResult A
build_page_result items total request = record {
  items = items;
  total = total;
  page = request.page;
  page_size = request.page_size;
  total_pages = max 1 (ceil_div total request.page_size);
}

pub record SkipTake : Type 0 where
  pub skip : ℕ
  pub take : ℕ

unfoldable pub to_skip_take : PageRequest → SkipTake
to_skip_take request = record {
  skip = (request.page - 1) * request.page_size;
  take = request.page_size;
}
