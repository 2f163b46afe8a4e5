-- ===== src/Bounties/LastClaim.antt =====
-- The claim that a giving up of a bounty removes.
use astro_api_gateway.Common.{
  ℕ, ◌≤◌, ◌≡◌, refl, ◌∙◌, ◌⊎◌, inl, inr, Option, none, some, List, [], ◌∷◌, String, ◌==◌, Bool,
  true, ◌&&◌, ltb, Bool-cases, All, filter, arith,
}
use astro_api_gateway.Bounties.{
  Numerals, BountyClaim, start_of, later_claim, last_claim_from, find_last_claim,
}

module _ (n : Numerals) (account_id : String) (until : ℕ) where
  -- A claim that the account made before the time, later than time 0.
  abbrev pub is_candidate : BountyClaim → Bool
  is_candidate claim =
      claim.account_id == account_id
      && (ltb (n.big_int claim.start_time) until && ltb 0 (n.big_int claim.start_time))

  -- A claim is no later than the result.
  abbrev pub IsBounded : Option BountyClaim → BountyClaim → Type 0
  IsBounded last claim = n.big_int claim.start_time ≤ start_of n last

  -- The result is one of the claims, and a candidate.
  pub data Chosen : Option BountyClaim → List BountyClaim → Type 0 where
    chosen :
        {claim : BountyClaim} {claims : List BountyClaim}
        → is_candidate claim ≡ true
        → Chosen (some claim) (claim ∷ claims)
    further :
        {last : Option BountyClaim} {claim : BountyClaim} {claims : List BountyClaim}
        → Chosen last claims
        → Chosen last (claim ∷ claims)

  later_claim-grows :
      (last : Option BountyClaim) (claim : BountyClaim)
      → (start_of n last ≤ start_of n (later_claim n account_id until last claim))
        × (is_candidate claim ≡ true → IsBounded (later_claim n account_id until last claim) claim)
  later_claim-grows last claim = ground arith

  last_claim_from-IsBounded :
      (last : Option BountyClaim) (claims : List BountyClaim)
      → (start_of n last ≤ start_of n (last_claim_from n account_id until last claims))
        × All
            (IsBounded (last_claim_from n account_id until last claims))
            (filter is_candidate claims)
  unfolding last_claim_from
  last_claim_from-IsBounded last [] = (ground arith, tt)
  last_claim_from-IsBounded last (claim ∷ claims) =
      let next = later_claim n account_id until last claim in
      let (grows, bounded) = later_claim-grows last claim in
      let (more, rest) = last_claim_from-IsBounded next claims in
      elim (Bool-cases (is_candidate claim)) [
        | inl candidate ↦ rw (candidate) (ground arith, (ground (arith, bounded candidate), rest))
        | inr other ↦ rw (other) (ground arith, rest)
      ]

  later_claim_cases :
      (last : Option BountyClaim) (claim : BountyClaim)
      → (later_claim n account_id until last claim ≡ last)
        ⊎ ((is_candidate claim ≡ true) × (later_claim n account_id until last claim ≡ some claim))
  later_claim_cases last claim =
      elim (Bool-cases (
        claim.account_id == account_id
        && (ltb (n.big_int claim.start_time) until
            && ltb (start_of n last) (n.big_int claim.start_time)))) [
              | inl later ↦ inr (ground arith, ground arith)
              | inr other ↦ inl (ground arith)
            ]

  last_claim_from-Chosen :
      (last : Option BountyClaim) (claims : List BountyClaim)
      → (last_claim_from n account_id until last claims ≡ last)
        ⊎ Chosen (last_claim_from n account_id until last claims) claims
  unfolding last_claim_from
  last_claim_from-Chosen last [] = inl refl
  last_claim_from-Chosen last (claim ∷ claims) =
      elim (last_claim_from-Chosen (later_claim n account_id until last claim) claims) [
        | inr found ↦ inr (further found)
        | inl kept ↦ elim (later_claim_cases last claim) [
          | inl same ↦ inl (kept ∙ same)
          | inr (candidate, taken) ↦ let e = kept ∙ taken in inr (rw (e) (chosen candidate))
        ]
      ]

-- The claim found, if any, is one of the account's in the list, made after time 0 and before the time.
-- None of these claims is later than the one found, where none found counts as time 0.
pub find_last_claim_lem :
    (n : Numerals) (claims : List BountyClaim) (account_id until : String)
    → let found = find_last_claim n claims account_id until in
      ((found ≡ none) ⊎ Chosen n account_id (n.big_int until) found claims)
      × All
          (IsBounded n account_id (n.big_int until) found)
          (filter (is_candidate n account_id (n.big_int until)) claims)
find_last_claim_lem n claims account_id until =
    let limit = n.big_int until in
    (
      last_claim_from-Chosen n account_id limit none claims,
      (last_claim_from-IsBounded n account_id limit none claims).1,
    )
