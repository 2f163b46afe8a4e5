-- ===== src/Tests/Claims.antt =====
-- A bounty with two claims.
use astro_api_gateway.Common.{
  ℕ, ◌≡◌, refl, ◌⊎◌, true, false, none, some, [], ◌∷◌, List, String, All, filter, if◌then◌else◌,
  ◌==◌,
}
use astro_api_gateway.Bounties.{
  Numerals, SputnikDaoBountyClaim, BountyClaim, Bounty, BountyDto, cast_bounty_claims,
  cast_claim_bounty, find_last_claim,
}
use astro_api_gateway.Bounties.Unique.{IsUniqueBy}
use astro_api_gateway.Bounties.Claims.{
  claim_of, is_removed, or_found, old_claims, cast_claim_bounty_lem,
}
use astro_api_gateway.Bounties.LastClaim.{Chosen, IsBounded, is_candidate, find_last_claim_lem}

-- The numerals of one digit.
abbrev digit : String → ℕ
digit text = if text == "1" then 1 else if text == "2" then 2 else 0

abbrev numerals : Numerals
numerals = record { big_int = digit; print = λ k. "1"; parse_int = λ text. some (digit text) }

abbrev bobs_claim : String → BountyClaim
bobs_claim start = record {
  id = start;
  bounty_id = "dao.near-1";
  account_id = "bob.near";
  start_time = start;
  deadline = "1";
  end_time = "2";
  completed = false;
}

abbrev bounty : Bounty
bounty = record {
  id = "dao.near-1";
  dao_id = some "dao.near";
  bounty_id = 1;
  proposal_id = "dao.near-2";
  proposal_index = none;
  description = "Write";
  token = "";
  amount = "1";
  times = 2;
  max_deadline = "1";
  bounty_claims = some (bobs_claim "1" ∷ bobs_claim "2" ∷ []);
  create_timestamp = "1";
  transaction_hash = "hash";
}

abbrev told : List SputnikDaoBountyClaim
told = record { bounty_id = 1; start_time = "2"; deadline = "1"; completed = true } ∷ []

cast_claim_bounty_lem_example :
    (dto : BountyDto) × (cast_claim_bounty numerals bounty "bob.near" "dao.near" "hash" told 1
        (some (bobs_claim "1"))
        "3"
      ≡ some dto)
    × IsUniqueBy BountyClaim.id dto.bounty_claims
    × ((id : String)
        → claim_of id dto.bounty_claims ≡ (
            if is_removed (some (bobs_claim "1")) id
            then none
            else or_found
                (claim_of id (old_claims numerals bounty))
                (claim_of id (cast_bounty_claims numerals "dao.near" "bob.near" 1 told))))
cast_claim_bounty_lem_example =
    cast_claim_bounty_lem numerals bounty "bob.near" "dao.near" "hash" told 1
      (some (bobs_claim "1")) "3" 2 refl

find_last_claim_lem_example :
    let claims = bobs_claim "1" ∷ bobs_claim "2" ∷ [] in
    let found = find_last_claim numerals claims "bob.near" "2" in
    ((found ≡ none) ⊎ Chosen numerals "bob.near" 2 found claims)
    × All
        (IsBounded numerals "bob.near" 2 found)
        (filter (is_candidate numerals "bob.near" 2) claims)
find_last_claim_lem_example =
    find_last_claim_lem numerals (bobs_claim "1" ∷ bobs_claim "2" ∷ []) "bob.near" "2"
