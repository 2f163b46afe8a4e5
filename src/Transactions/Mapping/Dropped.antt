-- ===== src/Transactions/Mapping/Dropped.antt =====
-- Receipts whose actions cannot be fetched, and actions without the status of their transaction.
use astro_api_gateway.Common.{
  ◌≡◌, refl, ap, ◌∙◌, sym, none, inl, inr, Bool-cases, arith, failure, List, [], ◌∷◌, ◌++◌, err,
  Error,
}
use astro_api_gateway.Transactions.Near.{NearApi}
use astro_api_gateway.Transactions.Handling.{
  HandledStore, HandlerEnv, St, entity_of, check, is_failed_test, handle_transaction_action,
}
use astro_api_gateway.Transactions.Mapping.{
  Receipt, ReceiptAction, cast_near_indexer_receipt_action, TransactionActionsResponse, add_result,
  get_actions_by_receipt, actions_from, get_actions_by_receipts, handle_near_receipts,
}

module _ (api : NearApi) where
  actions_from-append :
      (response : TransactionActionsResponse) (xs ys : List Receipt)
      → actions_from api response (xs ++ ys) ≡ actions_from api (actions_from api response xs) ys
  unfolding actions_from
  actions_from-append response [] ys = refl
  actions_from-append response (x ∷ xs) ys =
      actions_from-append (add_result api response (get_actions_by_receipt api x)) xs ys

  -- A receipt whose actions cannot be fetched is left out.
  get_actions_by_receipts-drops :
      (xs ys : List Receipt) (receipt : Receipt) (e : Error)
      → get_actions_by_receipt api receipt ≡ err e
      → get_actions_by_receipts api (xs ++ receipt ∷ ys) ≡ get_actions_by_receipts api (xs ++ ys)
  unfolding get_actions_by_receipts
  get_actions_by_receipts-drops xs ys receipt e failed =
      let empty : TransactionActionsResponse = record { transactions = []; actions = [] } in
      let before : TransactionActionsResponse = actions_from api empty xs in
      actions_from-append empty xs (receipt ∷ ys)
      ∙ ap (λ r. actions_from api (add_result api before r) ys) failed
      ∙ sym (actions_from-append empty xs ys)

  -- A batch with a receipt whose actions cannot be fetched is handled as the batch without it: the
  -- reported transactions, the success and what is stored are the same.
  pub handle_near_receipts-drops :
      (store : HandledStore) {W : Type 0} (env : HandlerEnv W) (xs ys : List Receipt)
      (receipt : Receipt) (e : Error) (s : St store env)
      → get_actions_by_receipt api receipt ≡ err e
      → handle_near_receipts api store env (xs ++ receipt ∷ ys) s
        ≡ handle_near_receipts api store env (xs ++ ys) s
  unfolding handle_near_receipts
  handle_near_receipts-drops store env xs ys receipt e s failed =
      rw (get_actions_by_receipts-drops xs ys receipt e failed) refl

-- An action that is cast from the indexer's rows and was not handled before cannot be handled: the call
-- throws and changes nothing.
pub handle_transaction_action-rows :
    (store : HandledStore) {W : Type 0} (env : HandlerEnv W) (receipt : Receipt)
    (row : ReceiptAction) (s : St store env)
    → let action = cast_near_indexer_receipt_action receipt row in
      check store action.transaction_hash (entity_of action) s.handled ≡ none
      → handle_transaction_action store env action s ≡ (err failure, s)
unfolding handle_transaction_action cast_near_indexer_receipt_action
handle_transaction_action-rows store env receipt row s new =
    let action = cast_near_indexer_receipt_action receipt row in
    elim (Bool-cases (is_failed_test store env action)) [
      | inl failing ↦ ground (arith, failing)
      | inr other ↦ ground (arith, other, new)
    ]
