-- ===== src/Indexer/Processor.antt =====
-- apps/indexer-processor/src: `handleReceipt`, `handleNewError` and `resolveError`. An error is tried
-- again by a call of `resolve_error`; the times between are left out.
pub mod Kept
pub mod Resolved
use astro_api_gateway.Common.{
  ℕ, zero, suc, ◌≡◌, Bool, true, false, Option, none, some, List, [], ◌∷◌, String, str_append,
  Result, ok, err, failure, Action, pure, throw, gets, modify, ◌>>=◌, ◌>>◌, catch,
}
use astro_api_gateway.Common.Repository.{Repository}
use astro_api_gateway.Cache.{CacheStore, clear_cache}
use astro_api_gateway.Transactions.Actions.{TransactionAction}
use astro_api_gateway.Transactions.Handling.{
  Results, HandledStore, HandlerEnv, HandlerState, handle_transaction_action,
}
use astro_api_gateway.Indexer.Entries.{
  ActionReceiptAction, ActionReceiptEntry, ReceiptEntry, TxStatus, get_transaction_action,
  map_receipt_entry_action_args,
}
use astro_api_gateway.Indexer.Errors.{
  ErrorStatus, open_error, in_progress_error, resolved, ErrorType, indexer_processor, TrackedError,
  ErrorTracker, create_error, get_error_by_id, set_error_status,
}

-- `TransactionHandlerStatus`
pub data ProcessorStatus : Type 0 where
  in_progress failed_handling success : ProcessorStatus

-- The handler state of the processor, with the last block.
pub record SavedState : Type 0 where
  pub status : ProcessorStatus
  pub last_block : Option (String × String)

abbrev keep_block : Option (String × String) → Option (String × String) → Option (String × String)
keep_block none old = old
keep_block (some block) old = some block

-- What the processor uses: the stores of handled actions and of errors, the cache, and the handlers.
pub record Services : Type 1 where
  pub handled : HandledStore
  pub World : Type 0
  pub env : HandlerEnv World
  pub items : Repository TrackedError
  pub entities : Repository TrackedError
  pub cache : CacheStore
  pub tx_status : TxStatus
  -- the text of an index
  pub show_index : ℕ → String

module _ (services : Services) where
  open services use {handled, World, env, items, entities, cache, tx_status, show_index}

  pub record ProcessorState : Type 0 where
    pub handler : HandlerState handled World
    pub tracker : ErrorTracker items entities
    pub state : SavedState
    pub cached : cache.Table

  abbrev pub in_handler :
      {A : Type 0} → Action (HandlerState handled World) A → Action ProcessorState A
  in_handler m s = let (r, h) = m s.handler in (r, record s { handler = h })

  abbrev pub in_tracker :
      {A : Type 0} → Action (ErrorTracker items entities) A → Action ProcessorState A
  in_tracker m s = let (r, t) = m s.tracker in (r, record s { tracker = t })

  -- `saveState`: a block that is not given is kept.
  unfoldable pub save_state :
      ProcessorStatus → Option (String × String) → Action ProcessorState (Unit {0})
  save_state status block = modify (λ s. record s {
    state = record { status = status; last_block = keep_block block s.state.last_block };
  })

  abbrev pub handle_cast : Result TransactionAction → Action (HandlerState handled World) Results
  handle_cast (ok action) = handle_transaction_action handled env action
  handle_cast (err e) = throw e

  -- The part of both loops in `try`.
  unfoldable pub handle_entry :
      ReceiptEntry → String → ActionReceiptAction → Action (HandlerState handled World) Results
  unfolding get_transaction_action
  handle_entry receipt signer_account_id action =
      handle_cast (get_transaction_action tx_status receipt signer_account_id action)

  abbrev pub error_id : ReceiptEntry → ℕ → String
  error_id receipt i = str_append receipt.receipt_id (str_append "-" (show_index i))

  -- `handleNewError` and what follows it in the loop; the next attempt is left out.
  unfoldable pub fail_at : ReceiptEntry → ℕ → Action ProcessorState Bool
  unfolding create_error map_receipt_entry_action_args save_state
  fail_at receipt i = do
    in_tracker
        (create_error items entities (error_id receipt i) (map_receipt_entry_action_args receipt))
    save_state failed_handling none
    pure false

  unfoldable pub clear_api_cache : Action ProcessorState (Unit {0})
  unfolding clear_cache
  clear_api_cache = modify (λ s. record s { cached = clear_cache cache s.cached })

  unfoldable pub succeed : Action ProcessorState Bool
  unfolding save_state clear_api_cache
  succeed = do save_state success none; clear_api_cache; pure true

  -- The loop of `handleReceipt` from an index, and what follows it.
  unfoldable pub handle_actions :
      ReceiptEntry → String → ℕ → List ActionReceiptAction → Action ProcessorState Bool
  unfolding handle_entry fail_at succeed
  handle_actions receipt signer_account_id i [] s = succeed s
  handle_actions receipt signer_account_id i (action ∷ actions) s =
      let (r, s') = in_handler (handle_entry receipt signer_account_id action) s in
      elim r [
        | ok results ↦ handle_actions receipt signer_account_id (suc i) actions s'
        | err e ↦ fail_at receipt i s'
      ]

  abbrev pub handle_action_entry :
      ReceiptEntry → Option ActionReceiptEntry → Action ProcessorState Bool
  handle_action_entry receipt none = succeed
  handle_action_entry receipt (some entry) =
      handle_actions receipt entry.signer_account_id 0 entry.actions

  unfoldable pub handle_receipt : ReceiptEntry → Action ProcessorState Bool
  unfolding handle_actions
  handle_receipt receipt = do
    save_state in_progress
        (some (receipt.included_in_block_hash, receipt.included_in_block_timestamp))
    handle_action_entry receipt receipt.action

  -- The loop of `resolveError`.
  unfoldable pub handle_again :
      ReceiptEntry → String → List ActionReceiptAction → Action ProcessorState (Unit {0})
  unfolding handle_entry
  handle_again receipt signer_account_id [] = pure tt
  handle_again receipt signer_account_id (action ∷ actions) = do
    catch (in_handler (handle_entry receipt signer_account_id action)) (λ e. throw failure)
    handle_again receipt signer_account_id actions

  abbrev pub handle_entry_again :
      ReceiptEntry → Option ActionReceiptEntry → Action ProcessorState (Unit {0})
  handle_entry_again receipt none = pure tt
  handle_entry_again receipt (some entry) =
      handle_again receipt entry.signer_account_id entry.actions

  abbrev pub resolve_receipt : String → ReceiptEntry → Action ProcessorState (Unit {0})
  resolve_receipt id receipt = do
    handle_entry_again receipt receipt.action
    in_tracker (set_error_status items entities id resolved)
    clear_api_cache

  -- The receipt of an error that is not skipped.
  abbrev pub receipt_to_resolve : TrackedError → Option ReceiptEntry
  receipt_to_resolve error = elim error.status [
    | resolved ↦ none
    | _ ↦ elim error.type [ none ↦ none | some t ↦ error.receipt ]
  ]

  abbrev pub resolve_found : String → Option TrackedError → Action ProcessorState (Unit {0})
  resolve_found id none = throw failure
  resolve_found id (some error) = elim (receipt_to_resolve error) [
    | none ↦ pure tt
    | some receipt ↦ resolve_receipt id receipt
  ]

  unfoldable pub resolve_error : String → Action ProcessorState (Unit {0})
  unfolding handle_again get_error_by_id set_error_status clear_api_cache
  resolve_error id = do
    error ← gets (λ s. get_error_by_id items entities id s.tracker)
    resolve_found id error
