-- ===== src/Paging.antt =====
-- `paginate` of libs/utils/src/index.ts.
pub mod Pages
use astro_api_gateway.Common.{ℕ, zero, suc, ◌+◌, ◌-◌, ◌/◌, List, length}

-- `items` is the field `data`, which is a reserved word here.
pub record BaseResponse {ℓ} (A : Type ℓ) : Type ℓ where
  pub items : List A
  pub page : ℕ
  pub page_count : ℕ
  pub count : ℕ
  pub total : ℕ

-- `limit ? Math.floor(offset / limit) + 1 : 1`
abbrev page_of : ℕ → ℕ → ℕ
page_of zero offset = 1
page_of (suc k) offset = offset / suc k + 1

-- `limit && total ? Math.ceil(total / limit) : 1`
abbrev pages_of : ℕ → ℕ → ℕ
pages_of zero total = 1
pages_of (suc k) zero = 1
pages_of (suc k) (suc n) = (suc n + k) / suc k

unfoldable pub paginate {ℓ} : {A : Type ℓ} → List A → ℕ → ℕ → ℕ → BaseResponse A
paginate items limit offset total = record {
  items = items;
  page = page_of limit offset;
  page_count = pages_of limit total;
  count = length items;
  total = total;
}
