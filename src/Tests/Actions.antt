-- ===== src/Tests/Actions.antt =====
-- Transaction actions: a store in memory, and handlers that do nothing.
use astro_api_gateway.Common.{
  arith, ◌≡◌, refl, true, false, none, some, Option, [], ◌∷◌, List, String, ok, err, Error, failure,
  if◌then◌else◌, ◌==◌, ◌&&◌, ends_with, pure,
}
use astro_api_gateway.Transactions.Actions.{
  TransactionAction, Arguments, natural, function_call, missing, succeeded, result, bounty_claim,
}
use astro_api_gateway.Transactions.Routing.{
  get_contract_handlers, dao_handler, token_handler, factory_handler, is_dao_contract, target_of,
  lookup,
}
use astro_api_gateway.Transactions.Routing.Receivers.{get_contract_handlers-apart}
use astro_api_gateway.Transactions.Funds.{save_dao_funds, save_deposit, save_tokens}
use astro_api_gateway.Transactions.Funds.Treasury.{IsTreasury, save_dao_funds-IsTreasury}
use astro_api_gateway.Transactions.Handling.{
  Results, HandledStore, HandlerEnv, St, handle_transaction_action, handle_transaction_actions,
  process, run_targets, handle_from,
}
use astro_api_gateway.Transactions.Handling.Replay.{handle_transaction_action-again}
use astro_api_gateway.Transactions.Handling.Batches.{
  Ends, handle_transaction_actions-Ends, handle_transaction_actions-again,
}
use astro_api_gateway.Transactions.Handling.Poison.{handle_transaction_action-poison}

abbrev pub find_item : String → String → List (String × String × Results) → Option Results
find_item p e [] = none
find_item p e ((q, f, r) ∷ t) = if q == p && f == e then some r else find_item p e t

pub saves_item :
    (p q e f : String) (r : Results) (t after : List (String × String × Results))
    → some ((q, f, r) ∷ t) ≡ some after
    → find_item p e after ≡ (if q == p && f == e then some r else find_item p e t)
saves_item p q e f r t after saved =
    let same : (q, f, r) ∷ t ≡ after = ground arith in rw (← same) refl

abbrev pub items : HandledStore
items = record {
  Table = List (String × String × Results);
  look_up = find_item;
  readable = λ t. true;
  save = λ q f r t. some ((q, f, r) ∷ t);
  look_up-save = saves_item;
}

abbrev pub env : HandlerEnv (Unit {0})
env = record {
  contract_name = "sputnik.near";
  enable_failed_dao = false;
  pool_order = λ hs. hs;
  run = λ name action. pure (some (result bounty_claim []));
}

abbrev pub start : St items env
start = record { handled = []; funds = record { receipts = []; token_receipts = [] }; world = tt }

abbrev pub no_arguments : Arguments
no_arguments = record {
  receiver_id = none;
  account_id = none;
  creator_id = none;
  owner_id = none;
  token_owner_ids = [];
  amount = none;
}

abbrev claim : TransactionAction
claim = record {
  receiver_id = "dao.sputnik.near";
  signer_id = "bob.near";
  tx_signer_id = "bob.near";
  predecessor_id = "bob.near";
  transaction_hash = "hash";
  block_hash = "block";
  kind = function_call;
  method_name = some "bounty_claim";
  args = no_arguments;
  deposit = some (natural 3);
  timestamp = "1";
  receipt_id = "r1";
  index_in_receipt = "0";
  status = succeeded;
  receipt_success_value = none;
}

dao_called : is_dao_contract "sputnik.near" "dao.sputnik.near" ≡ true
unfolding is_dao_contract ends_with
dao_called = refl

usual_name : ends_with "dao.sputnik.near" "undefined" ≡ false
unfolding ends_with
usual_name = refl

get_contract_handlers-apart_example :
    get_contract_handlers "sputnik.near" "dao.sputnik.near"
    ≡ dao_handler "sputnik.near" ∷ token_handler ∷ []
get_contract_handlers-apart_example =
    get_contract_handlers-apart "sputnik.near" "dao.sputnik.near" dao_called usual_name

save_dao_funds-IsTreasury_example :
    IsTreasury "sputnik.near" (save_dao_funds "sputnik.near" claim start.funds).1
save_dao_funds-IsTreasury_example =
    save_dao_funds-IsTreasury "sputnik.near" claim start.funds (tt, tt)

abbrev done : Results
done = some (result bounty_claim []) ∷ none ∷ []

claim_handled : (handle_transaction_action items env claim start).0 ≡ ok done
unfolding handle_transaction_action process run_targets get_contract_handlers ends_with target_of
    lookup save_dao_funds save_deposit save_tokens is_dao_contract
claim_handled = refl

claim_readable : items.readable (handle_transaction_action items env claim start).1.handled ≡ true
claim_readable = refl

handle_transaction_action-again_example :
    let after = (handle_transaction_action items env claim start).1 in
    handle_transaction_action items env claim after ≡ (ok done, after)
handle_transaction_action-again_example =
    handle_transaction_action-again items env claim done start claim_handled claim_readable

handle_transaction_actions-Ends_example :
    Ends items env [] []
      (claim ∷ claim ∷ [])
      start
      (handle_transaction_actions items env (claim ∷ claim ∷ []) start)
handle_transaction_actions-Ends_example =
    handle_transaction_actions-Ends items env (claim ∷ claim ∷ []) start

batch_handled : (handle_transaction_actions items env (claim ∷ []) start).0.success ≡ true
unfolding handle_transaction_actions handle_from handle_transaction_action process run_targets
    get_contract_handlers ends_with target_of lookup save_dao_funds save_deposit save_tokens
    is_dao_contract
batch_handled = refl

handle_transaction_actions-again_example :
    handle_transaction_actions items env
      (claim ∷ [])
      (handle_transaction_actions items env (claim ∷ []) start).1
    ≡ handle_transaction_actions items env (claim ∷ []) start
handle_transaction_actions-again_example =
    handle_transaction_actions-again items env (λ hash entity. succeeded) (claim ∷ []) start
      (refl, tt) (refl, refl) batch_handled

abbrev unknown_status : TransactionAction
unknown_status = record claim { status = missing }

unknown_status_fails :
    handle_transaction_action items env unknown_status start ≡ (err failure, start)
unfolding handle_transaction_action
unknown_status_fails = refl

abbrev poison : TransactionAction
poison = record claim { method_name = some "valueOf" }

handle_transaction_action-poison_example :
    (e : Error) × ((handle_transaction_action items env poison start).0 ≡ err e)
    × ((handle_transaction_action items env poison start).1.handled ≡ start.handled)
handle_transaction_action-poison_example =
    handle_transaction_action-poison items env poison "valueOf" start (λ h hs there. there) refl
      refl refl refl

-- A DAO whose name ends with "undefined" is given the factory's handlers too.
undefined_is_a_factory :
    get_contract_handlers "undefined" "dao.undefined"
    ≡ factory_handler "undefined" ∷ dao_handler "undefined" ∷ token_handler ∷ []
unfolding get_contract_handlers ends_with
undefined_is_a_factory = refl
