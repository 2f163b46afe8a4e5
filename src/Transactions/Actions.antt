-- ===== src/Transactions/Actions.antt =====
-- libs/transaction-handler/src/types: transaction actions and the results of their handlers.
use astro_api_gateway.Common.{
  ℕ, ◌≡◌, refl, ◌⊎◌, inl, inr, Bool, true, false, Option, none, some, List, String, Result, ok, err,
  failure, ltb,
}

pub data ActionKind : Type 0 where
  create_account deploy_contract function_call transfer : ActionKind
  stake add_key delete_key delete_account : ActionKind

-- What `BigInt` makes of the text or number of an amount; it throws at a malformed one. An amount that
-- is missing or empty is no amount, `none` below.
pub data Amount : Type 0 where
  natural : ℕ → Amount
  negative malformed : Amount

-- The arguments of a call that the handlers read. The JSON of a call may have any others.
pub record Arguments : Type 0 where
  pub receiver_id : Option String
  pub account_id : Option String
  pub creator_id : Option String
  pub owner_id : Option String
  -- the second parts of the entries of `token_ids`
  pub token_owner_ids : List String
  pub amount : Option Amount

-- `FinalExecutionStatus`; `missing` where the action has none.
pub data Status : Type 0 where
  missing succeeded failed : Status

pub Status-cases : (x : Status) → (x ≡ missing) ⊎ (x ≡ succeeded) ⊎ (x ≡ failed)
Status-cases missing = inl refl
Status-cases succeeded = inr (inl refl)
Status-cases failed = inr (inr refl)

pub record TransactionAction : Type 0 where
  pub receiver_id : String
  pub signer_id : String
  pub tx_signer_id : String
  pub predecessor_id : String
  pub transaction_hash : String
  pub block_hash : String
  pub kind : ActionKind
  pub method_name : Option String
  pub args : Arguments
  pub deposit : Option Amount
  pub timestamp : String
  pub receipt_id : String
  pub index_in_receipt : String
  pub status : Status
  pub receipt_success_value : Option String

-- `ContractHandlerResultType`
pub data ContractHandlerResultType : Type 0 where
  dao_create proposal_create proposal_vote bounty_claim : ContractHandlerResultType
  delegate token_update nft_update unknown : ContractHandlerResultType

-- A result, or the value of a function that is no handler.
pub data ContractHandlerResult : Type 0 where
  result : ContractHandlerResultType → List (String × String) → ContractHandlerResult
  foreign : ContractHandlerResult

abbrev pub is_function_call : ActionKind → Bool
is_function_call function_call = true
is_function_call _ = false

abbrev pub is_transfer : ActionKind → Bool
is_transfer transfer = true
is_transfer _ = false

-- `amount && BigInt(amount) > 0n`
abbrev pub is_positive : Option Amount → Result Bool
is_positive none = ok false
is_positive (some (natural n)) = ok (ltb 0 n)
is_positive (some negative) = ok false
is_positive (some malformed) = err failure
