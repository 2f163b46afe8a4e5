-- ===== src/Bounties.antt =====
-- libs/transaction-handler/src/types/bounty.ts, `findLastClaim` of libs/bounty/src/bounty.service.ts,
-- and what they use of libs/utils/src/index.ts. Times and numbers of bounties are texts of decimal
-- digits in the source: `Numerals` reads and prints them.
pub mod Unique
pub mod Claims
pub mod LastClaim
use astro_api_gateway.Common.{
  ℕ, zero, suc, ◌+◌, Bool, true, false, ◌&&◌, not, Option, none, some, List, [], ◌∷◌, ◌++◌, String,
  str_append, ◌==◌, map, filter, nat_eq, ltb, if◌then◌else◌,
}

-- `BigInt(text)` of the digits of a natural number, `String(number)`, and `parseInt(text)`, whose
-- result may be `NaN`.
pub record Numerals : Type 0 where
  pub big_int : String → ℕ
  pub print : ℕ → String
  pub parse_int : String → Option ℕ

pub record SputnikDaoBountyClaim : Type 0 where
  pub bounty_id : ℕ
  pub start_time : String
  pub deadline : String
  pub completed : Bool

pub record BountyClaim : Type 0 where
  pub id : String
  pub bounty_id : String
  pub account_id : String
  pub start_time : String
  pub deadline : String
  pub end_time : String
  pub completed : Bool

-- `Bounty`, and `BountyModel`, which alone has the index of its proposal. `bounty_claims` and
-- `dao_id` may be missing.
pub record Bounty : Type 0 where
  pub id : String
  pub dao_id : Option String
  pub bounty_id : ℕ
  pub proposal_id : String
  pub proposal_index : Option ℕ
  pub description : String
  pub token : String
  pub amount : String
  pub times : ℕ
  pub max_deadline : String
  pub bounty_claims : Option (List BountyClaim)
  pub create_timestamp : String
  pub transaction_hash : String

pub record BountyDto : Type 0 where
  pub id : String
  pub dao_id : String
  pub bounty_id : ℕ
  pub proposal_id : String
  pub proposal_index : ℕ
  pub description : String
  pub token : String
  pub amount : String
  pub times : ℕ
  pub max_deadline : String
  pub number_of_claims : ℕ
  pub bounty_claims : List BountyClaim
  pub create_timestamp : String
  pub transaction_hash : String
  pub update_transaction_hash : String
  pub update_timestamp : String

-- `self.findIndex(…)`
abbrev pub find_index {ℓ} : {A : Type ℓ} → (A → Bool) → List A → Option ℕ
find_index p [] = none
find_index p (x ∷ xs) =
    if p x then some 0 else elim (find_index p xs) [ none ↦ none | some i ↦ some (suc i) ]

abbrev pub is_index : Option ℕ → ℕ → Bool
is_index none i = false
is_index (some j) i = nat_eq i j

-- The filter of `arrayUniqueBy`, from an index on.
pub unique_from {ℓ} : {A : Type ℓ} → (A → String) → List A → ℕ → List A → List A
unique_from key self i [] = []
unique_from key self i (x ∷ xs) =
    let rest = unique_from key self (suc i) xs in
    if is_index (find_index (λ y. key y == key x) self) i then x ∷ rest else rest

abbrev pub array_unique_by {ℓ} : {A : Type ℓ} → (A → String) → List A → List A
array_unique_by key xs = unique_from key xs 0 xs

abbrev pub or_empty {ℓ} : {A : Type ℓ} → Option (List A) → List A
or_empty none = []
or_empty (some xs) = xs

abbrev or_text : Option String → String → String
or_text none b = b
or_text (some a) b = if a == "" then b else a

-- `text.split('-').pop()`, with what was read since the last dash
abbrev after_dash : String → String → String
after_dash part String.[] = part
after_dash part (String.◌∷◌ c s) =
    if String.◌∷◌ c "" == "-"
    then after_dash "" s
    else after_dash (str_append part (String.◌∷◌ c "")) s

abbrev dashed : String → String → String
dashed a b = str_append a (str_append "-" b)

module _ (n : Numerals) where
  abbrev pub build_bounty_id : String → ℕ → String
  build_bounty_id dao_id bounty_id = dashed dao_id (n.print bounty_id)

  abbrev pub build_bounty_claim_id : String → ℕ → String → String
  build_bounty_claim_id dao_id bounty_id start_time =
      dashed dao_id (dashed (n.print bounty_id) start_time)

  abbrev pub calculate_claim_end_time : String → String → String
  calculate_claim_end_time start_time deadline = n.print (n.big_int start_time + n.big_int deadline)

  -- It throws where the result is `NaN`.
  abbrev pub parse_proposal_index : String → Option ℕ
  parse_proposal_index proposal_id = n.parse_int (after_dash "" proposal_id)

  abbrev pub cast_bounty_claims :
      String → String → ℕ → List SputnikDaoBountyClaim → List BountyClaim
  cast_bounty_claims dao_id account_id bounty_id claims =
      map
        (λ (claim : SputnikDaoBountyClaim). record {
          id = build_bounty_claim_id dao_id claim.bounty_id claim.start_time;
          bounty_id = build_bounty_id dao_id claim.bounty_id;
          account_id = account_id;
          start_time = claim.start_time;
          deadline = claim.deadline;
          end_time = calculate_claim_end_time claim.start_time claim.deadline;
          completed = claim.completed;
        })
        (filter (λ claim. nat_eq bounty_id claim.bounty_id) claims)

  abbrev pub cast_bounty_claim : String → BountyClaim → BountyClaim
  cast_bounty_claim bounty_id claim = record claim { bounty_id = bounty_id }

  -- The claims of a bounty, with those of an account added.
  abbrev pub joined_claims : Bounty → List BountyClaim → List BountyClaim
  joined_claims bounty claims =
      map (cast_bounty_claim bounty.id) (or_empty bounty.bounty_claims) ++ claims

  abbrev pub filtered_claims : Option BountyClaim → List BountyClaim → List BountyClaim
  filtered_claims none claims = claims
  filtered_claims (some removed) claims = filter (λ claim. not (claim.id == removed.id)) claims

  abbrev pub index_of : Bounty → Option ℕ
  index_of bounty = elim bounty.proposal_index [
    | none ↦ parse_proposal_index bounty.proposal_id
    | some index ↦ some index
  ]

  -- Both casts throw where the proposal's id has no index: they give no result then.
  unfoldable pub cast_claim_bounty :
      Bounty
      → String
      → String
      → String
      → List SputnikDaoBountyClaim
      → ℕ
      → Option BountyClaim
      → String
      → Option BountyDto
  unfolding unique_from
  cast_claim_bounty bounty account_id dao_id transaction_hash bounty_claims number_of_claims removed
        timestamp =
      let claims = cast_bounty_claims dao_id account_id bounty.bounty_id bounty_claims in
      let filtered = filtered_claims removed (joined_claims bounty claims) in
      elim (index_of bounty) [
        | none ↦ none
        | some proposal_index ↦ some (record {
          id = bounty.id;
          dao_id = or_text bounty.dao_id dao_id;
          bounty_id = bounty.bounty_id;
          proposal_id = bounty.proposal_id;
          proposal_index = proposal_index;
          description = bounty.description;
          token = bounty.token;
          amount = bounty.amount;
          times = bounty.times;
          max_deadline = bounty.max_deadline;
          number_of_claims = number_of_claims;
          bounty_claims = array_unique_by BountyClaim.id filtered;
          create_timestamp = bounty.create_timestamp;
          transaction_hash = bounty.transaction_hash;
          update_transaction_hash = transaction_hash;
          update_timestamp = timestamp;
        })
      ]

  -- `times` are those of the contract's bounty. The ids of the proposals that are done are left out.
  unfoldable pub cast_done_bounty :
      String
      → String
      → Bounty
      → ℕ
      → ℕ
      → List SputnikDaoBountyClaim
      → String
      → String
      → Option BountyDto
  unfolding unique_from
  cast_done_bounty dao_id account_id bounty times number_of_claims bounty_claims transaction_hash
        timestamp =
      let claims = cast_bounty_claims dao_id account_id bounty.bounty_id bounty_claims in
      elim (parse_proposal_index bounty.proposal_id) [
        | none ↦ none
        | some proposal_index ↦ some (record {
          id = bounty.id;
          dao_id = or_text bounty.dao_id dao_id;
          bounty_id = bounty.bounty_id;
          proposal_id = bounty.proposal_id;
          proposal_index = proposal_index;
          description = bounty.description;
          token = bounty.token;
          amount = bounty.amount;
          times = times;
          max_deadline = bounty.max_deadline;
          number_of_claims = number_of_claims;
          bounty_claims = array_unique_by BountyClaim.id (joined_claims bounty claims);
          create_timestamp = bounty.create_timestamp;
          transaction_hash = bounty.transaction_hash;
          update_transaction_hash = transaction_hash;
          update_timestamp = timestamp;
        })
      ]

  abbrev pub start_of : Option BountyClaim → ℕ
  start_of none = 0
  start_of (some claim) = n.big_int claim.start_time

  -- The body of the reduction.
  abbrev pub later_claim : String → ℕ → Option BountyClaim → BountyClaim → Option BountyClaim
  later_claim account_id until last claim =
      if claim.account_id == account_id
        && (ltb (n.big_int claim.start_time) until
            && ltb (start_of last) (n.big_int claim.start_time))
      then some claim
      else last

  pub last_claim_from : String → ℕ → Option BountyClaim → List BountyClaim → Option BountyClaim
  last_claim_from account_id until last [] = last
  last_claim_from account_id until last (claim ∷ claims) =
      last_claim_from account_id until (later_claim account_id until last claim) claims

  abbrev pub find_last_claim : List BountyClaim → String → String → Option BountyClaim
  find_last_claim claims account_id until = last_claim_from account_id (n.big_int until) none claims
