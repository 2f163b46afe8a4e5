-- ===== src/Tests/Mapping.antt =====
-- The theorems on the mapping of receipts, at two receipts of which one cannot be fetched.
use astro_api_gateway.Common.{◌≡◌, refl, Option, none, some, [], ◌∷◌, String, ok, err, failure}
use astro_api_gateway.Transactions.Actions.{function_call, natural, succeeded}
use astro_api_gateway.Transactions.Funds.{Funds, save_deposit}
use astro_api_gateway.Transactions.Near.{
  RpcFunctionCall, RpcAction, RpcOutcome, Block, NearTransactionReceipt, NearTransactionStatus,
  NearApi,
}
use astro_api_gateway.Transactions.Mapping.{
  cast_near_indexer_receipt_action, TransactionActionEntity, Transaction, ReceiptAction, Receipt,
  get_actions_by_receipt, get_actions_by_receipts, handle_near_receipts,
}
use astro_api_gateway.Transactions.Handling.{handle_transaction_action}
use astro_api_gateway.Transactions.Mapping.Deposits.{fetched, save_deposit-fetched}
use astro_api_gateway.Transactions.Mapping.Dropped.{
  handle_near_receipts-drops, handle_transaction_action-rows,
}
use astro_api_gateway.Transactions.Mapping.Reported.{Reports, handle_near_receipts-Reports}
use astro_api_gateway.Tests.Actions.{items, env, no_arguments, start}

abbrev no_node : NearApi
no_node = record {
  tx_status_receipts = λ hash account. err failure;
  get_block = λ hash. err failure;
  decode_base64 = λ s. s;
  btoa_json = λ s. no_arguments;
  show_index = λ i. "0";
}

abbrev transaction_of : String → Option TransactionActionEntity → Transaction
transaction_of hash entity = record {
  transaction_hash = hash;
  included_in_block_hash = "b1";
  block_timestamp = "1600000000000000000";
  signer_account_id = "alice.near";
  transaction_action = entity;
}

abbrev claim_row : ReceiptAction
claim_row = record {
  index_in_action_receipt = "0";
  action_kind = function_call;
  receipt_predecessor_account_id = "alice.near";
  receipt_receiver_account_id = "dao.sputnik.near";
  method_name = some "bounty_claim";
  args_json = no_arguments;
  deposit = none;
}

abbrev receipt_with_rows : Receipt
receipt_with_rows = record {
  receipt_id = "r1";
  originated_from_transaction =
      transaction_of "tx1"
        (some (record { action_kind = some function_call; method_name = some "bounty_claim" }));
  receipt_actions = some (claim_row ∷ []);
}

abbrev receipt_without_rows : Receipt
receipt_without_rows = record {
  receipt_id = "r2";
  originated_from_transaction = transaction_of "tx2" none;
  receipt_actions = none;
}

unknown_status : get_actions_by_receipt no_node receipt_without_rows ≡ err failure
unfolding get_actions_by_receipt
unknown_status = refl

handle_near_receipts-drops_example :
    handle_near_receipts no_node items env (receipt_with_rows ∷ receipt_without_rows ∷ []) start
    ≡ handle_near_receipts no_node items env (receipt_with_rows ∷ []) start
handle_near_receipts-drops_example =
    handle_near_receipts-drops no_node items env (receipt_with_rows ∷ []) [] receipt_without_rows
      failure start unknown_status

handle_near_receipts-Reports_example :
    Reports no_node items env
      (get_actions_by_receipts no_node (receipt_with_rows ∷ []))
      start
      (handle_near_receipts no_node items env (receipt_with_rows ∷ []) start)
handle_near_receipts-Reports_example =
    handle_near_receipts-Reports no_node items env (receipt_with_rows ∷ []) start

abbrev paid_call : RpcFunctionCall
paid_call = record { method_name = "add_proposal"; args = "e30="; deposit = some (natural 100) }

abbrev paid_action : RpcAction
paid_action = record {
  first_key = function_call;
  function_call = some paid_call;
  transfer_deposit = none;
}

abbrev known : NearTransactionStatus
known = record {
  status = succeeded;
  transaction_hash = "tx1";
  signer_id = "alice.near";
  actions = [];
  receipts = [];
  receipts_outcome = [];
}

abbrev dao_receipt : NearTransactionReceipt
dao_receipt = record {
  predecessor_id = "alice.near";
  receiver_id = "dao.sputnik.near";
  receipt_id = "r1";
  actions = [];
}

abbrev block_one : Block
block_one = record { hash = "b1"; timestamp_nanosec = "1600000000000000000" }

abbrev outcome_one : RpcOutcome
outcome_one = record { id = "r1"; block_hash = "b1"; success_value = none }

abbrev no_funds : Funds
no_funds = record { receipts = []; token_receipts = [] }

save_deposit-fetched_example :
    save_deposit "sputnik.near"
      (fetched no_node known block_one dao_receipt outcome_one "0" paid_action)
      no_funds
    ≡ (ok tt, no_funds)
save_deposit-fetched_example =
    save_deposit-fetched no_node known block_one dao_receipt outcome_one "0" "sputnik.near"
      paid_action paid_call no_funds refl refl

handle_transaction_action-rows_example :
    handle_transaction_action items env
      (cast_near_indexer_receipt_action receipt_with_rows claim_row)
      start
    ≡ (err failure, start)
handle_transaction_action-rows_example =
    handle_transaction_action-rows items env receipt_with_rows claim_row start refl
