-- ===== src/Transactions/Mapping/Reported.antt =====
-- Which transactions `handleNearReceipts` reports.
use astro_api_gateway.Common.{
  ◌≡◌, ap, ◌⊎◌, inl, inr, Bool, true, false, List, [], ◌∷◌, ◌++◌, String, includes, filter, err,
  Error,
}
use astro_api_gateway.Transactions.Actions.{TransactionAction, ContractHandlerResult}
use astro_api_gateway.Transactions.Near.{NearApi}
use astro_api_gateway.Transactions.Handling.{
  HandledStore, HandlerEnv, St, HandledActions, handle_transaction_action,
  handle_transaction_actions,
}
use astro_api_gateway.Transactions.Handling.Batches.{
  Succeeds, Ends, hashes_of, other_than, handle_transaction_actions-Ends,
}
use astro_api_gateway.Transactions.Mapping.{
  Transaction, Receipt, TransactionActionsResponse, get_actions_by_receipts, handle_near_receipts,
}

module _ (api : NearApi) (store : HandledStore) {W : Type 0} (env : HandlerEnv W) where
  -- The transactions with a hash that is listed.
  abbrev pub with_hash : List String → List Transaction → List Transaction
  with_hash hashes txs = filter (λ (tx : Transaction). includes hashes tx.transaction_hash) txs

  -- What is reported of the transactions and actions that were fetched: all actions succeeded, and the
  -- transactions with an action are reported; or those before one that throws did, and the transactions
  -- with one of them are reported, but not that of the one that throws.
  pub Reports :
      TransactionActionsResponse → St store env → (List Transaction × Bool) × St store env → Type 0
  Reports response s ((txs, success), after) =
      ((qs : List ContractHandlerResult) × Succeeds store env response.actions qs s after
        × (success ≡ true)
        × (txs ≡ with_hash (hashes_of store env response.actions) response.transactions))
      ⊎ ((done : List TransactionAction) × (a : TransactionAction) × (rest : List TransactionAction)
          × (e : Error) × (qs : List ContractHandlerResult) × (mid : St store env)
          × (response.actions ≡ done ++ a ∷ rest)
          × Succeeds store env done qs s mid
          × (handle_transaction_action store env a mid ≡ (err e, after))
          × (success ≡ false)
          × (txs
              ≡ with_hash (other_than store env a.transaction_hash (hashes_of store env done))
                  response.transactions))

  Ends-Reports :
      (response : TransactionActionsResponse) (s : St store env) (handled : HandledActions)
      (after : St store env)
      → Ends store env [] [] response.actions s (handled, after)
      → Reports response s
          ((with_hash handled.handled_tx_hashes response.transactions, handled.success), after)
  unfolding Reports
  Ends-Reports response s handled after (inl (qs, all, o)) = inl (
    qs,
    all,
    ap (λ (h : HandledActions). h.success) o,
    ap (λ (h : HandledActions). with_hash h.handled_tx_hashes response.transactions) o,
  )
  Ends-Reports response s handled after
        (inr (done, a, rest, e, qs, mid, split, before, failed, o)) =
      inr (
        done,
        a,
        rest,
        e,
        qs,
        mid,
        split,
        before,
        failed,
        ap (λ (h : HandledActions). h.success) o,
        ap (λ (h : HandledActions). with_hash h.handled_tx_hashes response.transactions) o,
      )

  -- Of the receipts that are handled, the actions that could be fetched are handled in their order until
  -- one throws. The reported transactions are those with an action that was handled, without that of the
  -- one that throws, and the success says that none did.
  pub handle_near_receipts-Reports :
      (receipts : List Receipt) (s : St store env)
      → Reports
          (get_actions_by_receipts api receipts)
          s
          (handle_near_receipts api store env receipts s)
  unfolding handle_near_receipts
  handle_near_receipts-Reports receipts s =
      let response = get_actions_by_receipts api receipts in
      let run = handle_transaction_actions store env response.actions s in
      Ends-Reports response s run.0 run.1
        (handle_transaction_actions-Ends store env response.actions s)
