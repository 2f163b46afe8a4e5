-- ===== src/Tests/Caches.antt =====
-- A cache in memory: its keys.
use astro_api_gateway.Common.{◌≡◌, not, ◌&&◌, [], ◌∷◌, List, String, starts_with, includes, filter}
use astro_api_gateway.Cache.{CacheStore, handle_proposal_cache}
use astro_api_gateway.Cache.Clearing.{includes-filter, is_of_proposal, handle_proposal_cache_lem}

abbrev pub key_list : CacheStore
key_list = record {
  Table = List String;
  has = λ key t. includes t key;
  keys_from = λ prefix t. filter (λ key. starts_with key prefix) t;
  del = λ keys t. filter (λ key. not (includes keys key)) t;
  includes-keys_from = λ prefix key t. includes-filter (λ k. starts_with k prefix) t key;
  has-del = λ key keys t. includes-filter (λ k. not (includes keys k)) t key;
}

abbrev cached : List String
cached = "/api/v1/proposals?limit=5" ∷ "/api/v1/proposals/dao.near-7" ∷ "/api/v1/daos" ∷ []

handle_proposal_cache_lem_example :
    includes (handle_proposal_cache key_list "dao.near-7" cached) "/api/v1/daos"
    ≡ (includes cached "/api/v1/daos" && not (is_of_proposal "dao.near-7" "/api/v1/daos"))
handle_proposal_cache_lem_example =
    handle_proposal_cache_lem key_list "dao.near-7" "/api/v1/daos" cached
