-- ===== src/Tests/Receipts.antt =====
-- The theorems on the indexer processor at a receipt with two actions.
use astro_api_gateway.Common.{
  ◌≡◌, false, refl, true, none, some, [], ◌∷◌, String, ok, err, failure, nat_eq, if◌then◌else◌,
  ◌==◌,
}
use astro_api_gateway.Common.Repository.InMemory.{in_memory}
use astro_api_gateway.Transactions.Actions.{function_call, succeeded}
use astro_api_gateway.Indexer.Entries.{
  ActionReceiptAction, ActionReceiptEntry, ReceiptEntry, TransactionStatus,
  map_receipt_entry_action_args,
}
use astro_api_gateway.Indexer.Errors.{
  TrackedError, set_status, resolved, get_error_by_id, create_error, add_open_error_id,
}
use astro_api_gateway.Indexer.Processor.{
  Services, ProcessorState, success, handle_receipt, resolve_error, handle_actions, handle_entry,
  fail_at, save_state,
}
use astro_api_gateway.Indexer.Processor.Kept.{kept_error}
use astro_api_gateway.Tests.Actions.{items, env, no_arguments, start}
use astro_api_gateway.Tests.Caches.{key_list}

abbrev known_status : TransactionStatus
known_status = record {
  status = succeeded;
  receipts_outcome = record { id = "r1"; block_hash = "b1"; success_value = none } ∷ [];
}

abbrev services : Services
services = record {
  handled = items;
  World = Unit {0};
  env = env;
  items = in_memory TrackedError;
  entities = in_memory TrackedError;
  cache = key_list;
  tx_status = λ hash account. if hash == "tx1" then ok known_status else err failure;
  show_index = λ i. if nat_eq i 0 then "0" else "1";
}

abbrev entry_action : String → ActionReceiptAction
entry_action index = record {
  index_in_action_receipt = index;
  action_kind = function_call;
  args = record {
    method_name = some "act_proposal";
    deposit = none;
    args_json = no_arguments;
    more_args = ("gas", "30") ∷ [];
  };
  receipt_predecessor_account_id = "alice.near";
  receipt_receiver_account_id = "dao.sputnik.near";
}

abbrev two_actions : ActionReceiptEntry
two_actions = record {
  signer_account_id = "alice.near";
  actions = entry_action "0" ∷ entry_action "1" ∷ [];
}

abbrev receipt_of : String → ReceiptEntry
receipt_of hash = record {
  receipt_id = "r1";
  included_in_block_hash = "b1";
  included_in_block_timestamp = "1600000000000000000";
  predecessor_account_id = "alice.near";
  originated_from_transaction_hash = hash;
  action = some two_actions;
}

abbrev idle : ProcessorState services
idle = record {
  handler = start;
  tracker = record {
    use_dynamo = true;
    dynamo_reads = true;
    stored_items = ([], tt);
    stored_entities = ([], tt);
    open_error_ids = some [];
  };
  state = record { status = success; last_block = none };
  cached = [];
}

abbrev with_error : ProcessorState services
with_error = record idle {
  tracker = record {
    use_dynamo = true;
    dynamo_reads = true;
    stored_items = (("r1-0", kept_error services (receipt_of "tx1")) ∷ [], (refl, tt));
    stored_entities = (("r1-0", kept_error services (receipt_of "tx1")) ∷ [], (refl, tt));
    open_error_ids = some ("r1-0" ∷ []);
  };
}

-- The error of an action was resolved, and the action fails again: in SQL the error stays resolved, so that an
-- attempt that reads it there skips the receipt.
abbrev resolved_before : ProcessorState services
resolved_before = record idle {
  tracker = record {
    use_dynamo = false;
    dynamo_reads = true;
    stored_items = ([], tt);
    stored_entities =
        (("r1-0", set_status resolved (kept_error services (receipt_of "tx2"))) ∷ [], (refl, tt));
    open_error_ids = some [];
  };
}

abbrev failed_again : ProcessorState services
failed_again = (handle_receipt services (receipt_of "tx2") resolved_before).1

skipped_receipt : resolve_error services "r1-0" failed_again ≡ (ok tt, failed_again)
unfolding resolve_error handle_receipt get_error_by_id handle_actions handle_entry fail_at
    create_error add_open_error_id save_state map_receipt_entry_action_args
skipped_receipt = refl
