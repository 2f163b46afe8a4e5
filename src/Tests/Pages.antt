-- ===== src/Tests/Pages.antt =====
-- The pages of a list of three.
use astro_api_gateway.Common.{ℕ, ◌≤◌, ◌<◌, ◌+◌, ◌*◌, [], ◌∷◌, List, arith}
use astro_api_gateway.Paging.{paginate}
use astro_api_gateway.Paging.Pages.{paginate_lem}

abbrev second : List ℕ
second = 3 ∷ []

paginate_lem_example :
    let response = paginate second 2 2 3 in
    (response.page ≤ response.page_count)
    × (2 * response.page ≤ 2 + 2)
    × (2 < 2 * response.page)
    × (3 ≤ 2 * response.page_count)
    × (2 * response.page_count < 3 + 2)
paginate_lem_example = paginate_lem second 2 2 3 (omega arith) (omega arith)
