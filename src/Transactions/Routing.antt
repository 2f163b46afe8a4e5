-- ===== src/Transactions/Routing.antt =====
-- libs/transaction-handler/src/transaction-action-handler.service.ts, the constructor's table of
-- contract handlers and the choice from it.
pub mod Receivers
use astro_api_gateway.Common.{
  Bool, true, false, ◌||◌, Option, none, some, List, [], ◌∷◌, String, str_append, ◌==◌, filter,
  includes, ends_with, if◌then◌else◌,
}

pub data HandlerName : Type 0 where
  handle_create_dao handle_add_proposal handle_act_proposal : HandlerName
  handle_claim_unclaim_bounty handle_delegate handle_unknown_dao_transaction : HandlerName
  handle_token_mint handle_token_methods handle_nft_methods : HandlerName

pub record ContractHandler : Type 0 where
  pub contract_id : Option String
  pub contract_id_suffix : Option String
  pub method_handlers : List (String × HandlerName)
  pub default_handler : Option HandlerName

abbrev pub suffix_of : String → String
suffix_of contract_name = str_append "." contract_name

abbrev pub factory_handler : String → ContractHandler
factory_handler contract_name = record {
  contract_id = some contract_name;
  contract_id_suffix = none;
  method_handlers = ("create", handle_create_dao) ∷ [];
  default_handler = none;
}

abbrev pub dao_handler : String → ContractHandler
dao_handler contract_name = record {
  contract_id = none;
  contract_id_suffix = some (suffix_of contract_name);
  method_handlers =
      ("add_proposal", handle_add_proposal)
      ∷ ("act_proposal", handle_act_proposal)
      ∷ ("bounty_claim", handle_claim_unclaim_bounty)
      ∷ ("bounty_giveup", handle_claim_unclaim_bounty)
      ∷ ("delegate", handle_delegate)
      ∷ ("undelegate", handle_delegate)
      ∷ [];
  default_handler = some handle_unknown_dao_transaction;
}

abbrev pub token_handler : ContractHandler
token_handler = record {
  contract_id = none;
  contract_id_suffix = some "";
  method_handlers =
      ("mint", handle_token_mint)
      ∷ ("ft_mint", handle_token_methods)
      ∷ ("ft_transfer_call", handle_token_methods)
      ∷ ("ft_transfer", handle_token_methods)
      ∷ ("deposit", handle_token_methods)
      ∷ ("storage_deposit", handle_token_methods)
      ∷ ("deposit_and_stake", handle_token_methods)
      ∷ ("withdraw", handle_token_methods)
      ∷ ("storage_withdraw", handle_token_methods)
      ∷ ("withdraw_all", handle_token_methods)
      ∷ ("withdraw_unstaked", handle_token_methods)
      ∷ ("withdraw_from_available", handle_token_methods)
      ∷ ("nft_transfer", handle_nft_methods)
      ∷ ("nft_batch_transfer", handle_nft_methods)
      ∷ ("nft_transfer_call", handle_nft_methods)
      ∷ ("nft_approve", handle_nft_methods)
      ∷ ("nft_revoke", handle_nft_methods)
      ∷ ("nft_transfer_payout", handle_nft_methods)
      ∷ ("nft_on_approve", handle_nft_methods)
      ∷ ("nft_mint", handle_nft_methods)
      ∷ ("nft_batch_mint", handle_nft_methods)
      ∷ ("nft_burn", handle_nft_methods)
      ∷ ("nft_batch_burn", handle_nft_methods)
      ∷ ("nft_create_series", handle_nft_methods)
      ∷ ("nft_buy", handle_nft_methods)
      ∷ [];
  default_handler = none;
}

abbrev pub contract_handlers : String → List ContractHandler
contract_handlers contract_name =
    factory_handler contract_name ∷ dao_handler contract_name ∷ token_handler ∷ []

-- `contractHandler.contractId === receiverId`
abbrev is_contract : Option String → String → Bool
is_contract none receiver = false
is_contract (some id) receiver = id == receiver

-- `receiverId.endsWith(suffix)`: a missing argument is read as the text "undefined".
abbrev has_suffix : Option String → String → Bool
has_suffix none receiver = ends_with receiver "undefined"
has_suffix (some suffix) receiver = ends_with receiver suffix

abbrev pub matches : ContractHandler → String → Bool
matches h receiver = is_contract h.contract_id receiver || has_suffix h.contract_id_suffix receiver

unfoldable pub get_contract_handlers : String → String → List ContractHandler
get_contract_handlers contract_name receiver =
    filter (λ h. matches h receiver) (contract_handlers contract_name)

unfoldable pub is_dao_contract : String → String → Bool
is_dao_contract contract_name receiver = ends_with receiver (suffix_of contract_name)

-- The properties that a table of handlers inherits from `Object.prototype`.
abbrev pub inherited : List String
inherited =
    "constructor" ∷ "__defineGetter__" ∷ "__defineSetter__" ∷ "hasOwnProperty" ∷ "__lookupGetter__"
    ∷ "__lookupSetter__" ∷ "isPrototypeOf" ∷ "propertyIsEnumerable" ∷ "toString" ∷ "valueOf"
    ∷ "__proto__" ∷ "toLocaleString" ∷ []

-- What `methodHandlers[methodName] || defaultHandler` is.
pub data Target : Type 0 where
  handler : HandlerName → Target
  inherited_property : String → Target
  no_handler : Target

unfoldable pub lookup : String → List (String × HandlerName) → Option HandlerName
lookup name [] = none
lookup name ((key, value) ∷ table) = if key == name then some value else lookup name table

abbrev pub default_target : Option HandlerName → Target
default_target none = no_handler
default_target (some name) = handler name

abbrev pub method_text : Option String → String
method_text none = "undefined"
method_text (some name) = name

abbrev pub target_by : Option HandlerName → String → Option HandlerName → Target
target_by (some own) method default = handler own
target_by none method default =
    if includes inherited method then inherited_property method else default_target default

unfoldable pub target_of : ContractHandler → Option String → Target
unfolding lookup
target_of h method =
    target_by (lookup (method_text method) h.method_handlers) (method_text method) h.default_handler
