-- ===== src/Pagination.antt =====
-- app/utils/pagination/pagination.py. `math.ceil(total / page_size)` divides floats; below 2^53
-- items the result is the exact ceiling, which is modelled here.
use fastapi_project_structur.Common.{
  ℕ, ◌+◌, ◌-◌, ◌*◌, ◌/◌, ◌≤◌, ◌<◌, ◌≡◌, ◌↔◌, Bool, true, ◌&&◌, List, arith, ltb, if◌then◌else◌,
}

pub record Pagination {ℓ} (T : Type ℓ) : Type ℓ where
  pub items : List T
  pub total : ℕ
  pub page : ℕ
  pub page_size : ℕ
  pub total_pages : ℕ
  pub has_next : Bool
  pub has_prev : Bool

-- math.ceil(a / b)
ceil_div : ℕ → ℕ → ℕ
ceil_div a b = (a + b - 1) / b

pub create {ℓ} : {T : Type ℓ} → List T → (total page page_size : ℕ) → Pagination T
unfolding ceil_div
create items total page page_size =
    let total_pages = if ltb 0 total && ltb 0 page_size then ceil_div total page_size else 1 in
    record {
      items = items;
      total = total;
      page = page;
      page_size = page_size;
      total_pages = total_pages;
      has_next = ltb page total_pages;
      has_prev = ltb 1 page;
    }

module _ {ℓ} {T : Type ℓ} (items : List T) (total page page_size : ℕ) (some_items : 0 < total)
    (sized : 0 < page_size) where
  -- For a positive number of items and a positive page size, the pages hold every item, and
  -- the last page is not empty.
  total_pages_exact :
      (total ≤ (create items total page page_size).total_pages * page_size)
      × (((create items total page page_size).total_pages - 1) * page_size < total)
  unfolding create
  total_pages_exact = grind arith

  -- For a positive number of items and a positive page size, there is a next page exactly if
  -- items are left after this one.
  has_next_iff : ((create items total page page_size).has_next ≡ true) ↔ (page * page_size < total)
  unfolding create
  has_next_iff = grind arith
