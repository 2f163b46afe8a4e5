-- ===== src/Transactions/Mapping.antt =====
-- libs/transaction-handler/src/transaction-action-mapper.service.ts and transaction-handler.service.ts
-- (handleNearReceipts, handleNearTransaction), with the casts of types/transaction-action.ts: the actions
-- of transactions and receipts, and their handling. The retries of a call are one call here.
pub mod Deposits
pub mod Dropped
pub mod Reported
use astro_api_gateway.Common.{
  ℕ, zero, suc, ◌≡◌, Bool, true, false, ◌&&◌, ◌||◌, not, Option, none, some, List, [], ◌∷◌, ◌++◌,
  String, ◌==◌, map, find, filter, includes, Result, ok, err, failure, if◌then◌else◌,
}
use astro_api_gateway.Cache.Chunks.{concat}
use astro_api_gateway.Transactions.Actions.{
  ActionKind, function_call, Amount, natural, Arguments, Status, missing, TransactionAction,
  ContractHandlerResult, is_function_call,
}
use astro_api_gateway.Transactions.Near.{
  RpcOutcome, Block, NearTransactionAction, FunctionCall, NearTransactionReceipt,
  NearTransactionStatus, NearApi, all_results, get_tx_status,
}
use astro_api_gateway.Transactions.Handling.{
  HandledStore, HandlerEnv, St, HandledActions, handle_transaction_actions,
}

-- The action of a transaction in the indexer's database, with the method name of its arguments.
pub record TransactionActionEntity : Type 0 where
  pub action_kind : Option ActionKind
  pub method_name : Option String

pub record Transaction : Type 0 where
  pub transaction_hash : String
  pub included_in_block_hash : String
  pub block_timestamp : String
  pub signer_account_id : String
  pub transaction_action : Option TransactionActionEntity

pub record ReceiptAction : Type 0 where
  pub index_in_action_receipt : String
  pub action_kind : ActionKind
  pub receipt_predecessor_account_id : String
  pub receipt_receiver_account_id : String
  pub method_name : Option String
  pub args_json : Arguments
  pub deposit : Option Amount

pub record Receipt : Type 0 where
  pub receipt_id : String
  pub originated_from_transaction : Transaction
  pub receipt_actions : Option (List ReceiptAction)

-- `a || b`, and `a?.b`
abbrev or_amount : Option Amount → Option Amount → Option Amount
or_amount none b = b
or_amount (some a) b = some a

abbrev method_of : Option FunctionCall → Option String
method_of none = none
method_of (some call) = some call.method_name

-- The arguments of an action that is no call are `undefined`, which has no arguments.
abbrev args_of : Arguments → Option FunctionCall → Arguments
args_of no_args none = no_args
args_of no_args (some call) = call.args

abbrev deposit_of : Option FunctionCall → Option Amount
deposit_of none = none
deposit_of (some call) = call.deposit

abbrev pub no_arguments : Arguments
no_arguments = record {
  receiver_id = none;
  account_id = none;
  creator_id = none;
  owner_id = none;
  token_owner_ids = [];
  amount = none;
}

unfoldable pub cast_near_transaction_action :
    NearTransactionStatus
    → Block
    → NearTransactionReceipt
    → RpcOutcome
    → NearTransactionAction
    → String
    → TransactionAction
cast_near_transaction_action tx_status block receipt outcome action index = record {
  transaction_hash = tx_status.transaction_hash;
  block_hash = outcome.block_hash;
  receiver_id = receipt.receiver_id;
  predecessor_id = receipt.predecessor_id;
  signer_id = receipt.predecessor_id;
  tx_signer_id = tx_status.signer_id;
  kind = action.first_key;
  method_name = method_of action.function_call;
  args = args_of no_arguments action.function_call;
  deposit = or_amount action.transfer_deposit (deposit_of action.function_call);
  timestamp = block.timestamp_nanosec;
  receipt_id = receipt.receipt_id;
  index_in_receipt = index;
  status = tx_status.status;
  receipt_success_value = outcome.success_value;
}

unfoldable pub cast_near_indexer_receipt_action : Receipt → ReceiptAction → TransactionAction
cast_near_indexer_receipt_action receipt action = record {
  receiver_id = action.receipt_receiver_account_id;
  signer_id = action.receipt_predecessor_account_id;
  tx_signer_id = receipt.originated_from_transaction.signer_account_id;
  predecessor_id = action.receipt_predecessor_account_id;
  transaction_hash = receipt.originated_from_transaction.transaction_hash;
  block_hash = receipt.originated_from_transaction.included_in_block_hash;
  kind = action.action_kind;
  method_name = action.method_name;
  args = action.args_json;
  deposit = or_amount action.deposit (some (natural 0));
  timestamp = receipt.originated_from_transaction.block_timestamp;
  receipt_id = receipt.receipt_id;
  index_in_receipt = action.index_in_action_receipt;
  status = missing;
  receipt_success_value = none;
}

-- `castTransactionActionEntity`, of the first action; it throws where there is none.
abbrev cast_transaction_action_entity : List NearTransactionAction → Result TransactionActionEntity
cast_transaction_action_entity [] = err failure
cast_transaction_action_entity (action ∷ actions) =
    ok (record { action_kind = some action.first_key; method_name = none })

-- `[...new Set(hashes)]`
abbrev pub unique_hashes : List String → List String → List String
unique_hashes seen [] = seen
unique_hashes seen (h ∷ hs) = unique_hashes (if includes seen h then seen else seen ++ h ∷ []) hs

-- The response for some receipts: transactions by their hashes, and actions.
pub record TransactionActionsResponse : Type 0 where
  pub transactions : List Transaction
  pub actions : List TransactionAction

-- `transactions[hash] = transaction`, and `Object.values`
abbrev pub set_transaction : Transaction → List Transaction → List Transaction
set_transaction tx [] = tx ∷ []
set_transaction tx (u ∷ txs) =
    if u.transaction_hash == tx.transaction_hash then tx ∷ txs else u ∷ set_transaction tx txs

abbrev pub is_act_proposal : Option String → Bool
is_act_proposal none = false
is_act_proposal (some name) = name == "act_proposal"

abbrev is_call : Option ActionKind → Bool
is_call none = false
is_call (some kind) = is_function_call kind

-- `isActFunctionCall`, of the transaction's action
unfoldable pub is_act_function_call : TransactionActionEntity → Bool
is_act_function_call entity = is_act_proposal entity.method_name && is_call entity.action_kind

-- The actions that are cast from the indexer's rows, where the status need not be asked for.
abbrev pub rows_to_cast :
    Option TransactionActionEntity → Option (List ReceiptAction) → Option (List ReceiptAction)
rows_to_cast none rows = none
rows_to_cast (some entity) none = none
rows_to_cast (some entity) (some rows) = if is_act_function_call entity then none else some rows

abbrev pub flatten_results : {A : Type 0} → Result (List (List A)) → Result (List A)
flatten_results (err e) = err e
flatten_results (ok xss) = ok (concat xss)

module _ (api : NearApi) where
  -- The actions of a receipt, with their indices.
  unfoldable pub cast_actions :
      NearTransactionStatus
      → Block
      → NearTransactionReceipt
      → RpcOutcome
      → ℕ
      → List NearTransactionAction
      → List TransactionAction
  unfolding cast_near_transaction_action
  cast_actions tx_status block receipt outcome i [] = []
  cast_actions tx_status block receipt outcome i (action ∷ actions) =
      cast_near_transaction_action tx_status block receipt outcome action (api.show_index i)
      ∷ cast_actions tx_status block receipt outcome (suc i) actions

  abbrev pub with_block :
      NearTransactionStatus
      → NearTransactionReceipt
      → RpcOutcome
      → Option Block
      → Result (List TransactionAction)
  with_block tx_status receipt outcome none = err failure
  with_block tx_status receipt outcome (some block) =
      ok (cast_actions tx_status block receipt outcome 0 receipt.actions)

  abbrev pub with_outcome :
      NearTransactionStatus
      → List Block
      → NearTransactionReceipt
      → Option RpcOutcome
      → Result (List TransactionAction)
  with_outcome tx_status blocks receipt none = err failure
  with_outcome tx_status blocks receipt (some outcome) =
      with_block tx_status receipt outcome (find (λ block. block.hash == outcome.block_hash) blocks)

  abbrev pub actions_of_receipt :
      NearTransactionStatus → List Block → NearTransactionReceipt → Result (List TransactionAction)
  actions_of_receipt tx_status blocks receipt =
      with_outcome tx_status blocks receipt
        (find (λ outcome. outcome.id == receipt.receipt_id) tx_status.receipts_outcome)

  abbrev pub with_blocks :
      NearTransactionStatus → Result (List Block) → Result (List TransactionAction)
  with_blocks tx_status (err e) = err e
  with_blocks tx_status (ok blocks) =
      flatten_results (all_results (actions_of_receipt tx_status blocks) tx_status.receipts)

  unfoldable pub get_actions_by_tx_status : NearTransactionStatus → Result (List TransactionAction)
  unfolding cast_actions
  get_actions_by_tx_status tx_status = with_blocks tx_status (
      all_results api.get_block
        (unique_hashes [] (map (λ outcome. outcome.block_hash) tx_status.receipts_outcome)))

  abbrev pub by_status : Result NearTransactionStatus → Result (List TransactionAction)
  by_status (err e) = err e
  by_status (ok tx_status) = get_actions_by_tx_status tx_status

  unfoldable pub get_actions_by_near_transaction : String → String → Result (List TransactionAction)
  unfolding get_actions_by_tx_status get_tx_status
  get_actions_by_near_transaction transaction_hash account_id =
      by_status (get_tx_status api transaction_hash account_id)

  abbrev with_entity :
      Transaction
      → List TransactionAction
      → Result TransactionActionEntity
      → Result (Transaction × List TransactionAction)
  with_entity tx actions (err e) = err e
  with_entity tx actions (ok entity) = ok (record tx { transaction_action = some entity }, actions)

  abbrev with_status_actions :
      Transaction
      → NearTransactionStatus
      → Result (List TransactionAction)
      → Result (Transaction × List TransactionAction)
  with_status_actions tx tx_status (err e) = err e
  with_status_actions tx tx_status (ok actions) =
      with_entity tx actions (cast_transaction_action_entity tx_status.actions)

  abbrev with_status :
      Transaction → Result NearTransactionStatus → Result (Transaction × List TransactionAction)
  with_status tx (err e) = err e
  with_status tx (ok tx_status) =
      with_status_actions tx tx_status (get_actions_by_tx_status tx_status)

  abbrev from_rows :
      Receipt → Option (List ReceiptAction) → Result (Transaction × List TransactionAction)
  from_rows receipt none =
      let tx = receipt.originated_from_transaction in
      with_status tx (get_tx_status api tx.transaction_hash tx.signer_account_id)
  from_rows receipt (some rows) =
      ok (receipt.originated_from_transaction, map (cast_near_indexer_receipt_action receipt) rows)

  unfoldable pub get_actions_by_receipt : Receipt → Result (Transaction × List TransactionAction)
  unfolding get_actions_by_tx_status cast_near_indexer_receipt_action is_act_function_call
      get_tx_status
  get_actions_by_receipt receipt =
      from_rows receipt (
        rows_to_cast receipt.originated_from_transaction.transaction_action receipt.receipt_actions)

  -- The round of the loop for one receipt: an exception is logged.
  abbrev pub add_result :
      TransactionActionsResponse
      → Result (Transaction × List TransactionAction)
      → TransactionActionsResponse
  add_result response (err e) = response
  add_result response (ok (tx, actions)) = record {
    transactions = set_transaction tx response.transactions;
    actions = response.actions ++ actions;
  }

  unfoldable pub actions_from :
      TransactionActionsResponse → List Receipt → TransactionActionsResponse
  unfolding get_actions_by_receipt
  actions_from response [] = response
  actions_from response (receipt ∷ receipts) =
      actions_from (add_result response (get_actions_by_receipt receipt)) receipts

  unfoldable pub get_actions_by_receipts : List Receipt → TransactionActionsResponse
  unfolding actions_from
  get_actions_by_receipts receipts =
      actions_from (record { transactions = []; actions = [] }) receipts

  module _ (store : HandledStore) {W : Type 0} (env : HandlerEnv W) where
    -- The transactions that are reported as handled, and the success.
    unfoldable pub handle_near_receipts :
        List Receipt → St store env → (List Transaction × Bool) × St store env
    unfolding get_actions_by_receipts handle_transaction_actions
    handle_near_receipts receipts s =
        let response = get_actions_by_receipts receipts in
        let (handled, after) = handle_transaction_actions store env response.actions s in
        (
          (
            filter (λ (tx : Transaction). includes handled.handled_tx_hashes tx.transaction_hash)
                response.transactions,
            handled.success,
          ),
          after,
        )

    abbrev results_or_throw : HandledActions → Result (List ContractHandlerResult)
    results_or_throw handled = if handled.success then ok handled.results else err failure

    abbrev handle_mapped :
        Result (List TransactionAction)
        → St store env
        → Result (List ContractHandlerResult) × St store env
    handle_mapped (err e) s = (err e, s)
    handle_mapped (ok actions) s =
        let (handled, after) = handle_transaction_actions store env actions s in
        (results_or_throw handled, after)

    unfoldable pub handle_near_transaction :
        String → String → St store env → Result (List ContractHandlerResult) × St store env
    unfolding get_actions_by_near_transaction handle_transaction_actions
    handle_near_transaction transaction_hash account_id s =
        handle_mapped (get_actions_by_near_transaction transaction_hash account_id) s
