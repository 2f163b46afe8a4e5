-- ===== src/Transactions/Handling.antt =====
-- libs/transaction-handler/src/transaction-action-handler.service.ts, `handleTransactionAction` and
-- `handleTransactionActions`, with libs/transaction-handler/src/handled-receipt-action-dynamo.service.ts.
-- The method handlers are a parameter here; the promise pool runs them one after another, in an order
-- that is a parameter too.
pub mod Replay
pub mod Batches
pub mod Poison
use astro_api_gateway.Common.{
  ◌≡◌, Bool, true, false, ◌&&◌, Option, none, some, List, [], ◌∷◌, ◌++◌, String, str_append, ◌==◌,
  Result, ok, err, failure, Error, Action, pure, throw, gets, modify, throw_if, ◌>>=◌, ◌>>◌, filter,
  not, includes, starts_with, if◌then◌else◌,
}
use astro_api_gateway.Transactions.Actions.{
  TransactionAction, ContractHandlerResult, foreign, Status, missing, succeeded, failed,
}
use astro_api_gateway.Transactions.Routing.{
  HandlerName, ContractHandler, Target, handler, inherited_property, no_handler, target_of,
  get_contract_handlers,
}
use astro_api_gateway.Transactions.Funds.{Funds, save_dao_funds}

abbrev pub Results : Type 0
Results = List (Option ContractHandlerResult)

-- The DynamoDB items of handled actions, by partition and entity id, with whether a read succeeds now. A
-- save that fails throws, and leaves the items.
pub record HandledStore : Type 1 where
  pub Table : Type 0
  pub look_up : String → String → Table → Option Results
  pub readable : Table → Bool
  pub save : String → String → Results → Table → Option Table
  pub look_up-save :
      (p q e f : String) (r : Results) (t after : Table)
      → save q f r t ≡ some after
      → look_up p e after ≡ (if q == p && f == e then some r else look_up p e t)

-- `check`: a read that fails is answered as a missing item, for `getItemById` swallows the error.
abbrev pub check : (store : HandledStore) → String → String → store.Table → Option Results
check store p e t = if store.readable t then store.look_up p e t else none

pub record HandlerEnv (W : Type 0) : Type 0 where
  pub contract_name : String
  pub enable_failed_dao : Bool
  pub pool_order : List ContractHandler → List ContractHandler
  pub run : HandlerName → TransactionAction → Action W (Option ContractHandlerResult)

pub record HandlerState (store : HandledStore) (W : Type 0) : Type 0 where
  pub handled : store.Table
  pub funds : Funds
  pub world : W

-- `buildEntityId(HandledReceiptAction, …)`
pub entity_of : TransactionAction → String
entity_of action =
    str_append "HandledReceiptAction:"
      (str_append action.receipt_id (str_append "-" action.index_in_receipt))

-- `results.filter((result) => result)`
abbrev pub present {ℓ} : {A : Type ℓ} → List (Option A) → List A
present [] = []
present (none ∷ rs) = present rs
present (some r ∷ rs) = r ∷ present rs

-- A call of a property of `Object.prototype` with no receiver: two of them return, the others throw
-- a `TypeError`.
abbrev pub call_inherited : String → Result (Option ContractHandlerResult)
call_inherited name =
    if includes ("constructor" ∷ "toString" ∷ []) name then ok (some foreign) else err failure

pub record HandledActions : Type 0 where
  pub handled_tx_hashes : List String
  pub results : List ContractHandlerResult
  pub success : Bool

module _ (store : HandledStore) {W : Type 0} (env : HandlerEnv W) where
  abbrev pub St : Type 0
  St = HandlerState store W

  abbrev in_world : {A : Type 0} → Action W A → Action St A
  in_world m s = let (r, w) = m s.world in (r, record s { world = w })

  abbrev in_funds : {A : Type 0} → Action Funds A → Action St A
  in_funds m s = let (r, f) = m s.funds in (r, record s { funds = f })

  abbrev pub call_target : Target → TransactionAction → Action St (Option ContractHandlerResult)
  call_target (handler name) action = in_world (env.run name action)
  call_target (inherited_property name) action = λ s. (call_inherited name, s)
  call_target no_handler action = pure none

  -- `PromisePool.for(contractHandlers)`; an exception is thrown on.
  unfoldable pub run_targets : List ContractHandler → TransactionAction → Action St Results
  run_targets [] action = pure []
  run_targets (h ∷ hs) action = do
    result ← call_target (target_of h action.method_name) action
    results ← run_targets hs action
    pure (result ∷ results)

  abbrev save_handled : TransactionAction → Results → Action St (Unit {0})
  save_handled action results s =
      elim (store.save action.transaction_hash (entity_of action) results s.handled) [
        | none ↦ (err failure, s)
        | some saved ↦ (ok tt, record s { handled = saved })
      ]

  -- The part of the method after the checks.
  unfoldable pub process : TransactionAction → Action St Results
  unfolding run_targets
  process action = do
    let handlers = get_contract_handlers env.contract_name action.receiver_id
    results ← run_targets (env.pool_order handlers) action
    in_funds (save_dao_funds env.contract_name action)
    save_handled action results
    pure results

  abbrev handle_status : Status → TransactionAction → Action St Results
  handle_status missing action = throw failure
  handle_status failed action = pure []
  handle_status succeeded action = process action

  abbrev handle_unless : Option Results → TransactionAction → Action St Results
  handle_unless (some results) action = pure results
  handle_unless none action = handle_status action.status action

  abbrev pub is_failed_test : TransactionAction → Bool
  is_failed_test action =
      starts_with action.receiver_id "astro-failed-test" && env.enable_failed_dao

  unfoldable pub handle_transaction_action : TransactionAction → Action St Results
  handle_transaction_action action = do
    throw_if (is_failed_test action) failure
    earlier ← gets (λ s. check store action.transaction_hash (entity_of action) s.handled)
    handle_unless earlier action

  -- The loop, with the hashes and the results so far.
  unfoldable pub handle_from :
      List String → List ContractHandlerResult → List TransactionAction → St → HandledActions × St
  handle_from hashes results [] s =
      (record { handled_tx_hashes = hashes; results = results; success = true }, s)
  handle_from hashes results (action ∷ actions) s =
      let (r, s') = handle_transaction_action action s in
      elim r [
        | ok rs ↦
            handle_from (hashes ++ action.transaction_hash ∷ []) (results ++ present rs) actions s'
        | err e ↦ (
          record {
            handled_tx_hashes = filter (λ hash. not (action.transaction_hash == hash)) hashes;
            results = results;
            success = false;
          },
          s',
        )
      ]

  unfoldable pub handle_transaction_actions : List TransactionAction → St → HandledActions × St
  unfolding handle_from
  handle_transaction_actions actions s = handle_from [] [] actions s
