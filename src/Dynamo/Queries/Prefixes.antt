-- ===== src/Dynamo/Queries/Prefixes.antt =====
-- The pages of `paginateAllItemsByType`, which forgets the prefix after the first of them.
use astro_api_gateway.Common.{
  ℕ, ◌≡◌, ◌⊎◌, Result, true, false, Option, none, some, List, [], ◌∷◌, ◌++◌, String, map, ok, err,
  failure, starts_with, Action,
}
use astro_api_gateway.Cache.Chunks.{concat}
use astro_api_gateway.Dynamo.Values.{Fields}
use astro_api_gateway.Dynamo.Items.{Key, build_entity_id, denormalized}
use astro_api_gateway.Dynamo.Queries.{
  Page, Condition, by_type, QueryClient, yield_page, paginate_all_items_by_type,
}
use astro_api_gateway.Dynamo.Queries.Pages.{Paginates}

module _ (client : QueryClient) (laws : Paginates client)
    (default partition_id entity_type : String) where
  open client use {Table, Other}
  open laws use {
    in_range, matching, keys_left, page_at, keys_left_fewer, in_range-by_type, last-in_range,
    run_query-outside,
  }

  abbrev pub with_prefix : String → Condition Other
  with_prefix id_prefix = by_type partition_id (build_entity_id entity_type id_prefix)

  abbrev pages_from : ℕ → String → Option Key → Action Table (List (List Fields))
  pages_from fuel id_prefix start =
      paginate_all_items_by_type client fuel default partition_id entity_type start id_prefix
        default

  abbrev go_on : ℕ → Page → Action Table (List (List Fields))
  go_on fuel p =
      yield_page client p.items p.last_evaluated_key (λ key. pages_from fuel default (some key))

  -- The first page of the items with the prefix is the last one; or the id of its last item does not begin
  -- with the type and the name of the table, and the generator throws; or it does, and the items with that
  -- name as their prefix follow.
  pub Yields : String → Option Key → Table → Result (List (List Fields)) × Table → Type 0
  Yields id_prefix start t out =
      let page = page_at default (with_prefix id_prefix) start t in
      ((page.last_evaluated_key ≡ none) × (out ≡ (ok (map denormalized page.items ∷ []), t)))
      ⊎ ((key : Key) × (page.last_evaluated_key ≡ some key)
          × (starts_with key.1 (build_entity_id entity_type default) ≡ false)
          × (out ≡ (err failure, t)))
      ⊎ ((key : Key) × (page.last_evaluated_key ≡ some key)
          × (starts_with key.1 (build_entity_id entity_type default) ≡ true)
          × ((xss : List (List Fields)) × (out ≡ (ok xss, t))
              × (concat xss
                  ≡ map denormalized
                      (page.items ++ matching default (with_prefix default) (some key) t))))
