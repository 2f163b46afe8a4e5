-- ===== src/Cache/Clearing.antt =====
-- What the clearing of the cache leaves of it.
use text.Mathlib.TextEquality.{starts_with_iff}
use text.Mathlib.TextLemmas.{append_assoc}
use Prim.Native.String.append
use astro_api_gateway.Common.{
  ℕ, zero, suc, ◌+◌, ◌≤◌, ◌<◌, ◌≡◌, refl, ap, sym, ◌∙◌, inl, inr, Bool, true, ◌&&◌, ◌||◌, not, List,
  [], ◌∷◌, ◌++◌, String, str_append, ◌==◌, eq_iff, starts_with, includes, includes-append,
  includes-concat, filter, any, take, drop, length, ltb, Bool-cases, take-append-drop, arith,
}
use astro_api_gateway.Cache.{
  CacheStore, ProposalKeys, keys_to_clear, add_key, collect_keys, no_keys, whitelist, clear_from,
  clear_keys_chunked, handle_proposal_cache, handle_token_cache, handle_nft_cache, clear_cache,
}
use astro_api_gateway.Cache.Chunks.{drop-drop, drop_all}

-- A text that starts with a longer prefix starts with a shorter one.
starts_with-append :
    (s p q : String) → starts_with s (str_append p q) ≡ true → starts_with s p ≡ true
starts_with-append s p q h =
    let (rest, whole) = (starts_with_iff s (str_append p q)).0 h in
    (starts_with_iff s p).1 (str_append q rest, sym (append_assoc p q rest) ∙ whole)

pub includes-filter :
    (test : String → Bool) (xs : List String) (a : String)
    → includes (filter test xs) a ≡ (includes xs a && test a)
includes-filter test [] a = refl
includes-filter test (x ∷ xs) a = elim (Bool-cases (x == a)) [
  | inl same ↦
      let e : x ≡ a = (eq_iff x a).0 same in ground (arith, includes-filter test xs a, ap test e)
  | inr other ↦ ground (arith, includes-filter test xs a)
]

-- The keys that a change of a proposal invalidates.
unfoldable pub is_of_proposal : String → String → Bool
is_of_proposal id key =
    starts_with key "/api/v1/proposals/templates"
    || starts_with key "/api/v1/proposals?"
    || starts_with key "/api/v1/proposals/account-proposals?"
    || starts_with key (str_append "/api/v1/proposals/" id)

is_of_proposal-path :
    (id key : String) → is_of_proposal id key ≡ true → starts_with key "/api/v1/proposals" ≡ true
unfolding is_of_proposal
is_of_proposal-path id key h = ground (
  arith,
  starts_with-append key "/api/v1/proposals" "/templates",
  starts_with-append key "/api/v1/proposals" "?",
  starts_with-append key "/api/v1/proposals" "/account-proposals?",
  starts_with-append key "/api/v1/proposals" "/",
  starts_with-append key "/api/v1/proposals/" id,
)

includes-keys_to_clear :
    (found : ProposalKeys) (a : String)
    → includes (keys_to_clear found) a ≡ (
        includes found.template_keys a
        || includes found.base_keys a
        || includes found.account_proposals_keys a
        || includes found.proposal_id_keys a)
unfolding keys_to_clear
includes-keys_to_clear found a =
    let two = found.template_keys ++ found.base_keys in
    let three = two ++ found.account_proposals_keys in
    ground (
      arith,
      includes-append three found.proposal_id_keys a,
      includes-append two found.account_proposals_keys a,
      includes-append found.template_keys found.base_keys a,
    )

add_key_lem :
    (id : String) (found : ProposalKeys) (key a : String)
    → includes (keys_to_clear (add_key id found key)) a
      ≡ (includes (keys_to_clear found) a || (key == a && is_of_proposal id key))
unfolding add_key is_of_proposal
add_key_lem id found key a = ground (
  arith,
  includes-keys_to_clear found a,
  includes-keys_to_clear (add_key id found key) a,
  includes-concat found.template_keys key a,
  includes-concat found.base_keys key a,
  includes-concat found.account_proposals_keys key a,
  includes-concat found.proposal_id_keys key a,
)

collect_keys_lem :
    (id : String) (found : ProposalKeys) (keys : List String) (a : String)
    → includes (keys_to_clear (collect_keys id found keys)) a
      ≡ (includes (keys_to_clear found) a || (includes keys a && is_of_proposal id a))
unfolding collect_keys
collect_keys_lem id found [] a = ground arith
collect_keys_lem id found (key ∷ keys) a = elim (Bool-cases (key == a)) [
  | inl same ↦
      let e : is_of_proposal id key ≡ is_of_proposal id a =
        ap (is_of_proposal id) ((eq_iff key a).0 same) in
      ground (arith, collect_keys_lem id (add_key id found key) keys a, add_key_lem id found key a)
  | inr other ↦
      ground (arith, collect_keys_lem id (add_key id found key) keys a, add_key_lem id found key a)
]

-- The paths that `clearCache` spares.
abbrev pub path_listed : String → Bool
path_listed key = starts_with key "/api/v1/proposals" || starts_with key "/api/v1/tokens"

module _ (store : CacheStore) where
  clear_from_lem :
      (fuel size i : ℕ) (keys : List String) (t : store.Table) (key : String)
      → 0 < size
      → length keys ≤ i + fuel
      → store.has key (clear_from store fuel size i keys t)
        ≡ (store.has key t && not (includes (drop i keys) key))
  unfolding clear_from
  clear_from_lem zero size i keys t key h enough = rw (drop_all i keys (omega arith)) (ground arith)
  clear_from_lem (suc fuel) size i keys t key h enough = elim (Bool-cases (ltb i (length keys))) [
    | inl more ↦
        let now = take size (drop i keys) in
        let parts = includes-append now (drop size (drop i keys)) key in
        let whole : includes (drop i keys) key ≡ _ =
          ap (λ xs. includes xs key) (sym (take-append-drop size (drop i keys))) ∙ parts in
        let rest = clear_from_lem fuel size (i + size) keys (store.del now t) key h (omega arith) in
        let next = drop-drop size i (i + size) keys refl in ground (arith, store.has-del key now t)
    | inr done ↦ rw (done, drop_all i keys (ground arith)) (ground arith)
  ]

  clear_keys_chunked_lem :
      (keys : List String) (t : store.Table) (key : String)
      → store.has key (clear_keys_chunked store keys t)
        ≡ (store.has key t && not (includes keys key))
  clear_keys_chunked_lem keys t key =
      clear_from_lem (length keys) 10 0 keys t key (omega arith) (omega arith)

  -- A change of a proposal clears the keys of templates, of the list of proposals, of the proposals
  -- of accounts, and those that start with the path of the proposal, and leaves all others.
  pub handle_proposal_cache_lem :
      (id key : String) (t : store.Table)
      → store.has key (handle_proposal_cache store id t)
        ≡ (store.has key t && not (is_of_proposal id key))
  unfolding handle_proposal_cache
  handle_proposal_cache_lem id key t =
      let keys = store.keys_from "/api/v1/proposals" t in
      ground (
        arith,
        clear_keys_chunked_lem (keys_to_clear (collect_keys id no_keys keys)) t key,
        collect_keys_lem id no_keys keys key,
        store.includes-keys_from "/api/v1/proposals" key t,
        is_of_proposal-path id key,
      )

  -- Clearing the cache leaves the keys under the paths of proposals and of tokens, and no other.
  pub clear_cache_lem :
      (key : String) (t : store.Table)
      → store.has key (clear_cache store t) ≡ (store.has key t && path_listed key)
  unfolding clear_cache
  clear_cache_lem key t =
      let listed = λ (name : String). not (any (λ path. starts_with name path) whitelist) in
      let keys = store.keys_from "" t in
      ground (
        arith,
        clear_keys_chunked_lem (filter listed keys) t key,
        includes-filter listed keys key,
        store.includes-keys_from "" key t,
        (starts_with_iff key "").1 (key, append.nil key),
      )

  -- The handlers for tokens and for NFTs, one after the other, clear all keys under the path of
  -- tokens, and no other.
  pub handle_nft_cache-handle_token_cache :
      (key : String) (t : store.Table)
      → store.has key (handle_nft_cache store (handle_token_cache store t))
        ≡ (store.has key t && not (starts_with key "/api/v1/tokens"))
  unfolding handle_token_cache handle_nft_cache
  handle_nft_cache-handle_token_cache key t =
      let first =
        filter (λ key. not (starts_with key "/api/v1/tokens/nfts"))
          (store.keys_from "/api/v1/tokens" t) in
      let mid = handle_token_cache store t in
      let second = store.keys_from "/api/v1/tokens/nfts" mid in
      ground (
        arith,
        clear_keys_chunked_lem first t key,
        includes-filter (λ key. not (starts_with key "/api/v1/tokens/nfts"))
            (store.keys_from "/api/v1/tokens" t) key,
        store.includes-keys_from "/api/v1/tokens" key t,
        clear_keys_chunked_lem second mid key,
        store.includes-keys_from "/api/v1/tokens/nfts" key mid,
        starts_with-append key "/api/v1/tokens" "/nfts",
      )
