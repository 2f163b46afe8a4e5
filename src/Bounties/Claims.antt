-- ===== src/Bounties/Claims.antt =====
-- The claims that a bounty has after a claim, a giving up or a payment.
use astro_api_gateway.Common.{
  ℕ, ◌≡◌, refl, ap, ◌∙◌, Option, none, some, List, [], ◌∷◌, ◌++◌, String, ◌==◌, eq_iff, Bool, false,
  map, if◌then◌else◌, find, arith,
}
use astro_api_gateway.Bounties.{
  Numerals, SputnikDaoBountyClaim, BountyClaim, Bounty, BountyDto, or_empty, index_of,
  cast_bounty_claims, cast_bounty_claim, joined_claims, filtered_claims, cast_claim_bounty,
  cast_done_bounty, parse_proposal_index,
}
use astro_api_gateway.Bounties.Unique.{has_key, IsUniqueBy, array_unique_by_lem}

-- `a ?? b` of two results of a search
abbrev pub or_found {ℓ} : {A : Type ℓ} → Option A → Option A → Option A
or_found none b = b
or_found (some a) b = some a

find-append {ℓ} :
    {A : Type ℓ} (p : A → Bool) (xs ys : List A)
    → find p (xs ++ ys) ≡ or_found (find p xs) (find p ys)
find-append p [] ys = refl
find-append p (x ∷ xs) ys = ground (arith, find-append p xs ys)

abbrev pub claim_of : String → List BountyClaim → Option BountyClaim
claim_of id claims = find (has_key BountyClaim.id id) claims

-- The id is that of the claim to remove.
abbrev pub is_removed : Option BountyClaim → String → Bool
is_removed none id = false
is_removed (some removed) id = id == removed.id

claim_of-filtered_claims :
    (n : Numerals) (removed : Option BountyClaim) (claims : List BountyClaim) (id : String)
    → claim_of id (filtered_claims n removed claims)
      ≡ (if is_removed removed id then none else claim_of id claims)
claim_of-filtered_claims n none claims id = refl
claim_of-filtered_claims n (some removed) [] id = ground arith
claim_of-filtered_claims n (some removed) (claim ∷ claims) id = ground (
  arith,
  claim_of-filtered_claims n (some removed) claims id,
  eq_iff claim.id id,
  eq_iff claim.id removed.id,
  eq_iff id removed.id,
)

module _ (n : Numerals) where
  abbrev pub old_claims : Bounty → List BountyClaim
  old_claims bounty = map (cast_bounty_claim n bounty.id) (or_empty bounty.bounty_claims)

  -- Where the proposal of a bounty has an index, claiming or giving up the bounty gives a bounty whose
  -- claims have different ids. At each id but that of a removed claim it has the claim that the
  -- bounty had, and the one that the contract told of where the bounty had none; at the id of the
  -- removed claim it has none.
  pub cast_claim_bounty_lem :
      (bounty : Bounty) (account_id dao_id transaction_hash : String)
      (told : List SputnikDaoBountyClaim) (number_of_claims : ℕ) (removed : Option BountyClaim)
      (timestamp : String) (index : ℕ)
      → index_of n bounty ≡ some index
      → (dto : BountyDto) × (cast_claim_bounty n bounty account_id dao_id transaction_hash told
            number_of_claims removed timestamp
          ≡ some dto)
        × IsUniqueBy BountyClaim.id dto.bounty_claims
        × ((id : String)
            → claim_of id dto.bounty_claims ≡ (
                if is_removed removed id
                then none
                else or_found
                    (claim_of id (old_claims bounty))
                    (claim_of id (cast_bounty_claims n dao_id account_id bounty.bounty_id told))))
  unfolding cast_claim_bounty
  cast_claim_bounty_lem bounty account_id dao_id transaction_hash told number_of_claims removed
        timestamp index h =
      let news = cast_bounty_claims n dao_id account_id bounty.bounty_id told in
      let (unique, first) =
        array_unique_by_lem BountyClaim.id
          (filtered_claims n removed (joined_claims n bounty news)) in
      rw (cast_claim_bounty, h)
        (
          _,
          refl,
          unique,
          λ id.
              first id
              ∙ claim_of-filtered_claims n removed (joined_claims n bounty news) id
              ∙ ap (λ o. if is_removed removed id then none else o)
                  (find-append (has_key BountyClaim.id id) (old_claims bounty) news),
        )

  -- Where the id of its proposal has an index, the payment of a bounty gives the bounty the `times` of
  -- the contract, and claims with different ids: at each id the one that the bounty had, and the one
  -- that the contract told of where it had none.
  pub cast_done_bounty_lem :
      (bounty : Bounty) (account_id dao_id transaction_hash : String) (times number_of_claims : ℕ)
      (told : List SputnikDaoBountyClaim) (timestamp : String) (index : ℕ)
      → parse_proposal_index n bounty.proposal_id ≡ some index
      → (dto : BountyDto) × (cast_done_bounty n dao_id account_id bounty times number_of_claims told
            transaction_hash timestamp
          ≡ some dto)
        × (dto.times ≡ times)
        × IsUniqueBy BountyClaim.id dto.bounty_claims
        × ((id : String)
            → claim_of id dto.bounty_claims
              ≡ or_found
                  (claim_of id (old_claims bounty))
                  (claim_of id (cast_bounty_claims n dao_id account_id bounty.bounty_id told)))
  unfolding cast_done_bounty
  cast_done_bounty_lem bounty account_id dao_id transaction_hash times number_of_claims told
        timestamp index h =
      let news = cast_bounty_claims n dao_id account_id bounty.bounty_id told in
      let (unique, first) = array_unique_by_lem BountyClaim.id (joined_claims n bounty news) in
      rw (cast_done_bounty, h)
        (
          _,
          refl,
          refl,
          unique,
          λ id. first id ∙ find-append (has_key BountyClaim.id id) (old_claims bounty) news,
        )
