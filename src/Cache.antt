-- ===== src/Cache.antt =====
-- libs/cache/src/cache.service.ts, with `getChunks` of libs/utils/src/index.ts. The Redis store is an
-- interface: `keys` of a pattern that ends in a star is a query by prefix, and `keys` of no pattern one
-- by the empty prefix.
pub mod Chunks
pub mod Clearing
use astro_api_gateway.Common.{
  ℕ, zero, suc, ◌+◌, ◌≡◌, Bool, true, false, ◌&&◌, not, List, [], ◌∷◌, ◌++◌, String, str_append,
  ◌==◌, starts_with, includes, filter, any, take, drop, length, ltb, if◌then◌else◌,
}

pub record CacheStore : Type 1 where
  pub Table : Type 0
  pub has : String → Table → Bool
  pub keys_from : String → Table → List String
  pub del : List String → Table → Table
  pub includes-keys_from :
      (prefix key : String) (t : Table)
      → includes (keys_from prefix t) key ≡ (has key t && starts_with key prefix)
  pub has-del :
      (key : String) (keys : List String) (t : Table)
      → has key (del keys t) ≡ (has key t && not (includes keys key))

-- `for (let i = 0; i < arr.length; i += chunkSize) chunks.push(arr.slice(i, i + chunkSize))`,
-- on fuel: the loop does not end where `chunkSize` is 0.
pub chunks_from {ℓ} : {A : Type ℓ} → ℕ → ℕ → ℕ → List A → List (List A)
chunks_from zero size i xs = []
chunks_from (suc fuel) size i xs =
    let rest = chunks_from fuel size (i + size) xs in
    if ltb i (length xs) then take size (drop i xs) ∷ rest else []

-- `getChunks`: as many rounds as there are elements are enough.
abbrev pub get_chunks {ℓ} : {A : Type ℓ} → List A → ℕ → List (List A)
get_chunks xs size = chunks_from (length xs) size 0 xs

abbrev pub whitelist : List String
whitelist = "/api/v1/proposals" ∷ "/api/v1/tokens" ∷ []

-- The four lists of keys of `handleProposalCache`.
pub record ProposalKeys : Type 0 where
  pub template_keys : List String
  pub base_keys : List String
  pub account_proposals_keys : List String
  pub proposal_id_keys : List String

-- The body of the loop over the keys.
unfoldable pub add_key : String → ProposalKeys → String → ProposalKeys
add_key id found key =
    if starts_with key "/api/v1/proposals/templates"
    then record found { template_keys = found.template_keys ++ key ∷ [] }
    else if starts_with key "/api/v1/proposals?"
    then record found { base_keys = found.base_keys ++ key ∷ [] }
    else if starts_with key "/api/v1/proposals/account-proposals?"
    then record found { account_proposals_keys = found.account_proposals_keys ++ key ∷ [] }
    else if starts_with key (str_append "/api/v1/proposals/" id)
    then record found { proposal_id_keys = found.proposal_id_keys ++ key ∷ [] }
    else found

pub collect_keys : String → ProposalKeys → List String → ProposalKeys
unfolding add_key
collect_keys id found [] = found
collect_keys id found (key ∷ keys) = collect_keys id (add_key id found key) keys

abbrev pub no_keys : ProposalKeys
no_keys = record {
  template_keys = [];
  base_keys = [];
  account_proposals_keys = [];
  proposal_id_keys = [];
}

unfoldable pub keys_to_clear : ProposalKeys → List String
keys_to_clear found =
    found.template_keys ++ found.base_keys ++ found.account_proposals_keys ++ found.proposal_id_keys

module _ (store : CacheStore) where
  -- `clearKeysChunked`
  pub clear_from : ℕ → ℕ → ℕ → List String → store.Table → store.Table
  clear_from zero size i keys t = t
  clear_from (suc fuel) size i keys t =
      let rest = clear_from fuel size (i + size) keys (store.del (take size (drop i keys)) t) in
      if ltb i (length keys) then rest else t

  abbrev pub clear_keys_chunked : List String → store.Table → store.Table
  clear_keys_chunked keys = clear_from (length keys) 10 0 keys

  unfoldable pub handle_proposal_cache : String → store.Table → store.Table
  unfolding collect_keys keys_to_clear
  handle_proposal_cache id t =
      clear_keys_chunked
        (keys_to_clear (collect_keys id no_keys (store.keys_from "/api/v1/proposals" t))) t

  unfoldable pub handle_token_cache : store.Table → store.Table
  handle_token_cache t =
      clear_keys_chunked
        (filter (λ key. not (starts_with key "/api/v1/tokens/nfts"))
          (store.keys_from "/api/v1/tokens" t))
        t

  unfoldable pub handle_nft_cache : store.Table → store.Table
  handle_nft_cache t = clear_keys_chunked (store.keys_from "/api/v1/tokens/nfts" t) t

  unfoldable pub clear_cache : store.Table → store.Table
  clear_cache t =
      clear_keys_chunked
        (filter (λ key. not (any (λ path. starts_with key path) whitelist)) (store.keys_from "" t))
        t
