-- ===== src/Indexer/Processor/Resolved.antt =====
-- A kept error that is resolved: the actions of its receipt were handled.
use astro_api_gateway.Common.{
  ℕ, ◌≡◌, false, some, List, String, includes, ok, err, failure, Result, Action, throw, ◌>>◌, catch,
}
use astro_api_gateway.Transactions.Handling.{Results, HandlerState}
use astro_api_gateway.Indexer.Entries.{
  ActionReceiptAction, ReceiptEntry, map_receipt_entry_action_args, without_others,
}
use astro_api_gateway.Indexer.Errors.{resolved, set_status, set_error_status}
use astro_api_gateway.Indexer.Processor.{
  Services, ProcessorState, handle_entry, error_id, in_handler, in_tracker, clear_api_cache,
}
use astro_api_gateway.Indexer.Processor.Kept.{kept_error, Handled}

module _ (services : Services) (receipt : ReceiptEntry) where
  open services use {handled, World, items, entities}

  abbrev State : Type 0
  State = ProcessorState services

  abbrev kept : ReceiptEntry
  kept = map_receipt_entry_action_args receipt

  -- The second attempt: all actions are handled, or one fails; the tracker is left.
  abbrev Again : String → List ActionReceiptAction → State → Result (Unit {0}) × State → Type 0
  Again signer actions s (ok u, after) =
      Handled services receipt signer actions s.handler after.handler × (after.tracker ≡ s.tracker)
  Again signer actions s (err e, after) = after.tracker ≡ s.tracker

  module _ (signer : String) (a : ActionReceiptAction) (actions : List ActionReceiptAction)
      (s : State) where
    abbrev tried : Action State Results
    tried =
        catch (in_handler services (handle_entry services kept signer (without_others a)))
          (λ e. throw failure)

    abbrev next_handler : HandlerState handled World
    next_handler = (handle_entry services kept signer (without_others a) s.handler).1

    abbrev next_state : State
    next_state = record s { handler = next_handler }

  -- The error with an index is resolved in both stores, and not one of the open ones.
  abbrev pub IsResolved : ℕ → State → Type 0
  IsResolved i s =
      (items.find_one (error_id services receipt i) s.tracker.stored_items
        ≡ some (set_status resolved (kept_error services receipt)))
      × ((ids : List String) × (s.tracker.open_error_ids ≡ some ids)
          × (includes ids (error_id services receipt i) ≡ false))
      × (entities.find_one (error_id services receipt i) s.tracker.stored_entities
          ≡ some (set_status resolved (kept_error services receipt)))

  -- A second attempt at a kept receipt.
  abbrev pub Resolves :
      String → List ActionReceiptAction → ℕ → State → Result (Unit {0}) × State → Type 0
  Resolves signer actions i s (ok u, after) =
      Handled services receipt signer actions s.handler after.handler × IsResolved i after
  Resolves signer actions i s (err e, after) = after.tracker ≡ s.tracker

  abbrev finish : ℕ → Action State (Unit {0})
  finish i =
      in_tracker services (set_error_status items entities (error_id services receipt i) resolved)
      >> clear_api_cache services
