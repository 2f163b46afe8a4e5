-- ===== src/Transactions/Near.antt =====
-- libs/near-api/src/types and `getTxStatus` of libs/near-api/src/near-api.service.ts: the status of a
-- transaction as the RPC node tells it, and as the gateway casts it. A receipt that is no action receipt
-- has no actions; the cast throws there.
use astro_api_gateway.Common.{
  ℕ, Option, none, some, List, [], ◌∷◌, String, map, Result, ok, err, failure,
}
use astro_api_gateway.Transactions.Actions.{ActionKind, Amount, Arguments, Status}

pub record RpcFunctionCall : Type 0 where
  pub method_name : String
  pub args : String
  pub deposit : Option Amount

-- An action: its first key, and the values under two of the keys.
pub record RpcAction : Type 0 where
  pub first_key : ActionKind
  pub function_call : Option RpcFunctionCall
  pub transfer_deposit : Option Amount

pub record RpcReceipt : Type 0 where
  pub predecessor_id : String
  pub receiver_id : String
  pub receipt_id : String
  pub actions : Option (List RpcAction)

pub record RpcOutcome : Type 0 where
  pub id : String
  pub block_hash : String
  pub success_value : Option String

pub record RpcStatus : Type 0 where
  pub status : Status
  pub transaction_hash : String
  pub signer_id : String
  pub actions : List RpcAction
  pub receipts : List RpcReceipt
  pub receipts_outcome : List RpcOutcome

pub record Block : Type 0 where
  pub hash : String
  pub timestamp_nanosec : String

pub record FunctionCall : Type 0 where
  pub method_name : String
  pub args : Arguments
  pub deposit : Option Amount

pub record NearTransactionAction : Type 0 where
  pub first_key : ActionKind
  pub function_call : Option FunctionCall
  pub transfer_deposit : Option Amount

pub record NearTransactionReceipt : Type 0 where
  pub predecessor_id : String
  pub receiver_id : String
  pub receipt_id : String
  pub actions : List NearTransactionAction

pub record NearTransactionStatus : Type 0 where
  pub status : Status
  pub transaction_hash : String
  pub signer_id : String
  pub actions : List NearTransactionAction
  pub receipts : List NearTransactionReceipt
  pub receipts_outcome : List RpcOutcome

-- The calls of the RPC node, and the texts that are read and written: base64, the JSON of arguments, and
-- indices.
pub record NearApi : Type 0 where
  pub tx_status_receipts : String → String → Result RpcStatus
  pub get_block : String → Result Block
  pub decode_base64 : String → String
  pub btoa_json : String → Arguments
  -- the text of an index
  pub show_index : ℕ → String

-- The results of a list of calls, of which one may throw.
abbrev pub all_results : {A B : Type 0} → (A → Result B) → List A → Result (List B)
all_results f [] = ok []
all_results f (x ∷ xs) = elim (f x) [
  | err e ↦ err e
  | ok y ↦ elim (all_results f xs) [ err e ↦ err e | ok ys ↦ ok (y ∷ ys) ]
]

module _ (api : NearApi) where
  -- The new object of a function call has the name and the arguments only.
  abbrev cast_function_call : Option RpcFunctionCall → Option FunctionCall
  cast_function_call none = none
  cast_function_call (some call) =
      some
        (record { method_name = call.method_name; args = api.btoa_json call.args; deposit = none })

  unfoldable pub cast_transaction_action : RpcAction → NearTransactionAction
  cast_transaction_action action = record {
    first_key = action.first_key;
    function_call = cast_function_call action.function_call;
    transfer_deposit = action.transfer_deposit;
  }

  abbrev cast_success_value : Option String → Option String
  cast_success_value none = none
  cast_success_value (some value) = some (api.decode_base64 value)

  unfoldable pub cast_transaction_receipt_outcome : RpcOutcome → RpcOutcome
  cast_transaction_receipt_outcome outcome = record outcome {
    success_value = cast_success_value outcome.success_value;
  }

  abbrev with_actions : RpcReceipt → Option (List RpcAction) → Result NearTransactionReceipt
  with_actions receipt none = err failure
  with_actions receipt (some actions) = ok (record {
    predecessor_id = receipt.predecessor_id;
    receiver_id = receipt.receiver_id;
    receipt_id = receipt.receipt_id;
    actions = map cast_transaction_action actions;
  })

  unfoldable pub cast_transaction_receipt : RpcReceipt → Result NearTransactionReceipt
  unfolding cast_transaction_action
  cast_transaction_receipt receipt = with_actions receipt receipt.actions

  abbrev pub with_receipts :
      RpcStatus → Result (List NearTransactionReceipt) → Result NearTransactionStatus
  with_receipts status (err e) = err e
  with_receipts status (ok receipts) = ok (record {
    status = status.status;
    transaction_hash = status.transaction_hash;
    signer_id = status.signer_id;
    actions = map cast_transaction_action status.actions;
    receipts = receipts;
    receipts_outcome = map cast_transaction_receipt_outcome status.receipts_outcome;
  })

  abbrev pub cast_status : Result RpcStatus → Result NearTransactionStatus
  cast_status (err e) = err e
  cast_status (ok status) =
      with_receipts status (all_results cast_transaction_receipt status.receipts)

  unfoldable pub get_tx_status : String → String → Result NearTransactionStatus
  unfolding cast_transaction_receipt cast_transaction_receipt_outcome
  get_tx_status transaction_hash account_id =
      cast_status (api.tx_status_receipts transaction_hash account_id)
