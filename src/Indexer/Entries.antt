-- ===== src/Indexer/Entries.antt =====
-- apps/indexer-processor/src/types/receipt-entry.ts: the receipts of the stream, and the transaction
-- actions that they become with the status of their transaction.
use astro_api_gateway.Common.{
  Option, none, some, List, [], String, map, find, ◌==◌, Result, ok, err, failure,
}
use astro_api_gateway.Transactions.Actions.{
  ActionKind, Amount, natural, Arguments, Status, TransactionAction,
}

-- The arguments of an action in the stream: the three that are read, and the others.
pub record EntryArgs : Type 0 where
  pub method_name : Option String
  pub deposit : Option Amount
  pub args_json : Arguments
  pub more_args : List (String × String)

pub record ActionReceiptAction : Type 0 where
  pub index_in_action_receipt : String
  pub action_kind : ActionKind
  pub args : EntryArgs
  pub receipt_predecessor_account_id : String
  pub receipt_receiver_account_id : String

pub record ActionReceiptEntry : Type 0 where
  pub signer_account_id : String
  pub actions : List ActionReceiptAction

pub record ReceiptEntry : Type 0 where
  pub receipt_id : String
  pub included_in_block_hash : String
  pub included_in_block_timestamp : String
  pub predecessor_account_id : String
  pub originated_from_transaction_hash : String
  pub action : Option ActionReceiptEntry

-- An outcome of a transaction's receipts, with `SuccessValue`.
pub record ReceiptOutcome : Type 0 where
  pub id : String
  pub block_hash : String
  pub success_value : Option String

-- What of `NearTransactionStatus` is read here.
pub record TransactionStatus : Type 0 where
  pub status : Status
  pub receipts_outcome : List ReceiptOutcome

abbrev pub without_others : ActionReceiptAction → ActionReceiptAction
without_others action = record action { args = record (action.args) { more_args = [] } }

abbrev pub without_other_args : Option ActionReceiptEntry → Option ActionReceiptEntry
without_other_args none = none
without_other_args (some entry) = some (record entry { actions = map without_others entry.actions })

-- `mapReceiptEntryActionArgs`, for a receipt with actions.
unfoldable pub map_receipt_entry_action_args : ReceiptEntry → ReceiptEntry
map_receipt_entry_action_args receipt = record receipt {
  action = without_other_args receipt.action;
}

-- `deposit || '0'`
abbrev or_zero : Option Amount → Option Amount
or_zero none = some (natural 0)
or_zero (some amount) = some amount

unfoldable pub cast_transaction_action :
    Status → ReceiptEntry → String → Option String → ActionReceiptAction → TransactionAction
cast_transaction_action status receipt signer_account_id success_value action = record {
  receiver_id = action.receipt_receiver_account_id;
  signer_id = action.receipt_predecessor_account_id;
  tx_signer_id = signer_account_id;
  predecessor_id = action.receipt_predecessor_account_id;
  transaction_hash = receipt.originated_from_transaction_hash;
  block_hash = receipt.included_in_block_hash;
  kind = action.action_kind;
  method_name = action.args.method_name;
  args = action.args.args_json;
  deposit = or_zero action.args.deposit;
  timestamp = receipt.included_in_block_timestamp;
  receipt_id = receipt.receipt_id;
  index_in_receipt = action.index_in_action_receipt;
  status = status;
  receipt_success_value = success_value;
}

-- The remote call for the status of a transaction of an account.
abbrev pub TxStatus : Type 0
TxStatus = String → String → Result TransactionStatus

abbrev cast_with_outcome :
    ReceiptEntry
    → String
    → ActionReceiptAction
    → TransactionStatus
    → Option ReceiptOutcome
    → Result TransactionAction
cast_with_outcome receipt signer_account_id action status none = err failure
cast_with_outcome receipt signer_account_id action status (some outcome) =
    ok
      (cast_transaction_action status.status receipt signer_account_id outcome.success_value action)

abbrev cast_with_status :
    ReceiptEntry
    → String
    → ActionReceiptAction
    → Result TransactionStatus
    → Result TransactionAction
cast_with_status receipt signer_account_id action (err e) = err e
cast_with_status receipt signer_account_id action (ok status) =
    cast_with_outcome receipt signer_account_id action status
      (find (λ outcome. outcome.id == receipt.receipt_id) status.receipts_outcome)

-- `getTransactionAction` of the processor's common service.
unfoldable pub get_transaction_action :
    TxStatus → ReceiptEntry → String → ActionReceiptAction → Result TransactionAction
unfolding cast_transaction_action
get_transaction_action tx_status receipt signer_account_id action =
    cast_with_status receipt signer_account_id action
      (tx_status receipt.originated_from_transaction_hash receipt.predecessor_account_id)
