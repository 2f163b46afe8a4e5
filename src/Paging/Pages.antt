-- ===== src/Paging/Pages.antt =====
-- The number of the page and of the pages.
use native.Mathlib.Nat.{mul-le-mul_left, mul-add, mul-one}
use native.Mathlib.Omega.{div_fact, mod_fact}
use astro_api_gateway.Common.{
  ℕ, zero, suc, ◌+◌, ◌*◌, ◌/◌, ◌≤◌, ◌<◌, ◌≡◌, ap, ◌∙◌, List, arith, inl, inr, Bool-cases, leb,
}
use astro_api_gateway.Paging.{paginate}

-- On a positive limit, where an element stands at the offset, the page is the one of that element: it is
-- one of the pages, the elements of the pages before it end at the offset or before, and it reaches
-- further. The pages hold all elements, and without the last one they do not.
pub paginate_lem {ℓ} :
    {A : Type ℓ} (items : List A) (limit offset total : ℕ)
    → 0 < limit
    → offset < total
    → let response = paginate items limit offset total in
      (response.page ≤ response.page_count)
      × (limit * response.page ≤ offset + limit)
      × (offset < limit * response.page)
      × (total ≤ limit * response.page_count)
      × (limit * response.page_count < total + limit)
unfolding paginate
paginate_lem items zero offset total h at = absurd (omega arith)
paginate_lem items (suc k) offset zero h at = absurd (omega arith)
paginate_lem items (suc k) offset (suc n) h at =
    let q = offset / suc k in
    let p = (suc n + k) / suc k in
    let one = div_fact offset k in
    let two = div_fact (suc n + k) k in
    let less = mod_fact offset k in
    let fewer = mod_fact (suc n + k) k in
    let more : suc k * (q + 1) ≡ suc k * q + suc k =
      mul-add (suc k) q 1 ∙ ap (λ x. suc k * q + x) (mul-one (suc k)) in
    (
      elim (Bool-cases (leb (q + 1) p)) [
        | inl within ↦ ground arith
        | inr past ↦
            let low : p ≤ q = ground arith in
            let product = mul-le-mul_left (suc k) low in absurd (omega arith)
      ],
      omega arith,
      omega arith,
      omega arith,
      omega arith,
    )
