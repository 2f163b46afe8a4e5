-- ===== src/Transactions/Mapping/Deposits.antt =====
-- The deposits of function calls that are fetched from the RPC node.
use astro_api_gateway.Common.{◌≡◌, none, some, String, ok, arith}
use astro_api_gateway.Transactions.Actions.{TransactionAction}
use astro_api_gateway.Transactions.Funds.{Funds, save_deposit}
use astro_api_gateway.Transactions.Near.{
  RpcFunctionCall, RpcAction, RpcOutcome, Block, NearTransactionReceipt, NearTransactionStatus,
  NearApi, cast_transaction_action,
}
use astro_api_gateway.Transactions.Mapping.{cast_near_transaction_action}

module _ (api : NearApi) (tx_status : NearTransactionStatus) (block : Block)
    (receipt : NearTransactionReceipt) (outcome : RpcOutcome) (index : String) where
  -- An action of the RPC node, cast twice.
  abbrev pub fetched : RpcAction → TransactionAction
  fetched action =
      cast_near_transaction_action tx_status block receipt outcome
        (cast_transaction_action api action) index

  fetched-deposit :
      (action : RpcAction) (call : RpcFunctionCall)
      → action.function_call ≡ some call
      → action.transfer_deposit ≡ none
      → (fetched action).deposit ≡ none
  unfolding cast_near_transaction_action cast_transaction_action
  fetched-deposit action call is_call no_transfer = ground (arith, is_call, no_transfer)

  -- For a function call that is fetched from the RPC node no receipt of its deposit is saved, whatever was
  -- attached to it.
  pub save_deposit-fetched :
      (contract_name : String) (action : RpcAction) (call : RpcFunctionCall) (f : Funds)
      → action.function_call ≡ some call
      → action.transfer_deposit ≡ none
      → save_deposit contract_name (fetched action) f ≡ (ok tt, f)
  unfolding save_deposit
  save_deposit-fetched contract_name action call f is_call no_transfer =
      ground (arith, fetched-deposit action call is_call no_transfer)
