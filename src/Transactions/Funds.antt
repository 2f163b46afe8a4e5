-- ===== src/Transactions/Funds.antt =====
-- `saveDaoFunds` of libs/transaction-handler/src/transaction-action-handler.service.ts: the receipts
-- that are stored for the funds of a DAO. What is stored is listed in the order of the calls.
pub mod Treasury
use astro_api_gateway.Common.{
  Bool, true, false, ◌&&◌, ◌||◌, Option, none, some, List, [], ◌∷◌, ◌++◌, String, Result, ok, err,
  failure, Action, pure, throw, gets, modify, when, ◌>>=◌, ◌>>◌, includes, if◌then◌else◌,
}
use astro_api_gateway.Transactions.Actions.{
  ActionKind, Amount, Arguments, TransactionAction, is_function_call, is_transfer, is_positive,
}
use astro_api_gateway.Transactions.Routing.{is_dao_contract}

pub record DaoFundsReceipt : Type 0 where
  pub dao_id : String
  pub receipt_id : String
  pub index_in_receipt : String
  pub predecessor_id : String
  pub receiver_id : String
  pub kind : ActionKind
  pub deposit : Option Amount
  pub method_name : Option String
  pub args : Arguments
  pub transaction_hash : String
  pub create_timestamp : String

pub record DaoFundsTokenReceipt : Type 0 where
  pub dao_id : Option String
  pub receipt_id : String
  pub index_in_receipt : String
  pub sender_id : String
  pub receiver_id : Option String
  pub token_id : String
  pub kind : ActionKind
  pub amount : Option Amount
  pub deposit : Option Amount
  pub method_name : Option String
  pub args : Arguments
  pub transaction_hash : String
  pub create_timestamp : String

pub record Funds : Type 0 where
  pub receipts : List DaoFundsReceipt
  pub token_receipts : List DaoFundsTokenReceipt

-- `a ?? b`
abbrev pub or_else : Option String → Option String → Option String
or_else none b = b
or_else (some a) b = some a

abbrev pub is_token_method : Option String → Bool
is_token_method none = false
is_token_method (some name) = includes ("ft_mint" ∷ "ft_transfer" ∷ "ft_transfer_call" ∷ []) name

-- The Boolean of a test that may throw.
abbrev test : Result Bool → Action Funds Bool
test r s = (r, s)

module _ (contract_name : String) (action : TransactionAction) where
  abbrev pub funds_receipt : DaoFundsReceipt
  funds_receipt = record {
    dao_id =
        if is_dao_contract contract_name action.predecessor_id
        then action.predecessor_id
        else action.receiver_id;
    receipt_id = action.receipt_id;
    index_in_receipt = action.index_in_receipt;
    predecessor_id = action.predecessor_id;
    receiver_id = action.receiver_id;
    kind = action.kind;
    deposit = action.deposit;
    method_name = action.method_name;
    args = action.args;
    transaction_hash = action.transaction_hash;
    create_timestamp = action.timestamp;
  }

  abbrev pub token_receiver : Option String
  token_receiver = or_else action.args.receiver_id action.args.account_id

  abbrev pub funds_token_receipt : DaoFundsTokenReceipt
  funds_token_receipt = record {
    dao_id =
        if is_dao_contract contract_name action.predecessor_id
        then some action.predecessor_id
        else token_receiver;
    receipt_id = action.receipt_id;
    index_in_receipt = action.index_in_receipt;
    sender_id = action.predecessor_id;
    receiver_id = token_receiver;
    token_id = action.receiver_id;
    kind = action.kind;
    amount = action.args.amount;
    deposit = action.deposit;
    method_name = action.method_name;
    args = action.args;
    transaction_hash = action.transaction_hash;
    create_timestamp = action.timestamp;
  }

  abbrev pub between_daos : Bool
  between_daos =
      is_dao_contract contract_name action.predecessor_id
      || is_dao_contract contract_name action.receiver_id

  -- `receiverId.endsWith` throws where there is no receiver, unless the sender is a DAO.
  abbrev pub concerns_dao : Option String → Result Bool
  concerns_dao none =
      if is_dao_contract contract_name action.predecessor_id then ok true else err failure
  concerns_dao (some receiver) = ok (
      is_dao_contract contract_name action.predecessor_id || is_dao_contract contract_name receiver)

  unfoldable pub save_deposit : Action Funds (Unit {0})
  save_deposit = do
    positive ← test (is_positive action.deposit)
    when (positive && between_daos)
        (modify (λ f. record f { receipts = f.receipts ++ funds_receipt ∷ [] }))

  abbrev pub save_known_tokens : Action Funds (Unit {0})
  save_known_tokens = do
    positive ← test (is_positive action.args.amount)
    when positive (do
      concerned ← test (concerns_dao token_receiver)
      when concerned (
          modify (λ f. record f { token_receipts = f.token_receipts ++ funds_token_receipt ∷ [] })))

  unfoldable pub save_tokens : Action Funds (Unit {0})
  save_tokens =
      when (is_function_call action.kind && is_token_method action.method_name) save_known_tokens

  unfoldable pub save_dao_funds : Action Funds (Unit {0})
  unfolding save_deposit save_tokens
  save_dao_funds =
      when (is_transfer action.kind || is_function_call action.kind) (do save_deposit; save_tokens)
