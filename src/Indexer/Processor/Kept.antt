-- ===== src/Indexer/Processor/Kept.antt =====
-- No action of a receipt is lost: it is handled, or the receipt is kept as an open error.
use astro_api_gateway.Common.{
  ℕ, suc, ◌+◌, ◌≡◌, ◌⊎◌, Bool, true, false, Option, none, some, List, [], ◌∷◌, ◌++◌, length, String,
  includes, includes-concat, eq_refl, ok, err, failure, Error, Result, arith,
}
use astro_api_gateway.Transactions.Handling.{Results, HandlerState}
use astro_api_gateway.Indexer.Entries.{
  ActionReceiptAction, ReceiptEntry, map_receipt_entry_action_args,
}
use astro_api_gateway.Indexer.Errors.{
  ErrorStatus, read_item, open_error, indexer_processor, TrackedError, add_id, set_status,
}
use astro_api_gateway.Indexer.Processor.{
  Services, ProcessorState, success, handle_entry, error_id, fail_at, handle_actions,
}

pub includes-add_id : (id : String) (ids : List String) → includes (add_id id ids) id ≡ true
includes-add_id id ids = ground (arith, includes-concat ids id id, eq_refl id)

abbrev status_or_open : Option TrackedError → ErrorStatus
status_or_open none = open_error
status_or_open (some old) = old.status

module _ (services : Services) (receipt : ReceiptEntry) where
  open services use {handled, World, items, entities}

  abbrev State : Type 0
  State = ProcessorState services

  -- The error that is kept for a receipt.
  abbrev pub kept_error : TrackedError
  kept_error = record {
    type = some indexer_processor;
    status = open_error;
    receipt = some (map_receipt_entry_action_args receipt);
  }

  -- The error with an index is in both stores, in SQL with a status, and is one of the open ones.
  abbrev pub IsKept : ErrorStatus → ℕ → State → Type 0
  IsKept status i s =
      (items.find_one (error_id services receipt i) s.tracker.stored_items ≡ some kept_error)
      × ((ids : List String) × (s.tracker.open_error_ids ≡ some ids)
          × (includes ids (error_id services receipt i) ≡ true))
      × (entities.find_one (error_id services receipt i) s.tracker.stored_entities
          ≡ some (set_status status kept_error))

  -- The status that SQL has for the error: an old one stays.
  abbrev pub sql_status : ℕ → State → ErrorStatus
  sql_status i s =
      status_or_open (entities.find_one (error_id services receipt i) s.tracker.stored_entities)

  -- The open errors as they are read.
  abbrev pub read_ids : State → Option (List String)
  read_ids s = read_item s.tracker.dynamo_reads s.tracker.open_error_ids

  -- What `fail_at` does: the error is kept, or the list of open errors is missing or cannot be read.
  abbrev pub Fails : ℕ → State → Result Bool × State → Type 0
  Fails i s (r, after) =
      (after.handler ≡ s.handler)
      × (((r ≡ ok false) × IsKept (sql_status i s) i after)
          ⊎ ((r ≡ err failure) × (read_ids s ≡ none)))

  -- The actions are handled one after another, from one state to another.
  pub data Handled
      : String
        → List ActionReceiptAction
        → HandlerState handled World
        → HandlerState handled World
        → Type 0 where
    all_handled : {signer : String} {h : HandlerState handled World} → Handled signer [] h h
    one_handled :
        {signer : String} {a : ActionReceiptAction} {actions : List ActionReceiptAction}
        {rs : Results} {h mid after : HandlerState handled World}
        → handle_entry services receipt signer a h ≡ (ok rs, mid)
        → Handled signer actions mid after
        → Handled signer (a ∷ actions) h after

  -- The loop from an index: all actions were handled, or those before one that fails.
  abbrev pub Accounts : String → ℕ → List ActionReceiptAction → State → Result Bool × State → Type 0
  Accounts signer i actions s (r, after) =
      ((r ≡ ok true)
        × (after.state.status ≡ success)
        × Handled signer actions s.handler after.handler)
      ⊎ ((done : List ActionReceiptAction) × (a : ActionReceiptAction) × (rest : List
            ActionReceiptAction)
          × (e : Error) × (mid : HandlerState handled World) × (actions ≡ done ++ a ∷ rest)
          × Handled signer done s.handler mid
          × (handle_entry services receipt signer a mid ≡ (err e, after.handler))
          × (((r ≡ ok false) × IsKept (sql_status (i + length done) s) (i + length done) after)
              ⊎ ((r ≡ err failure) × (read_ids s ≡ none))))

  module _ (signer : String) (i : ℕ) (a : ActionReceiptAction) (actions : List ActionReceiptAction)
      (s : State) where
    abbrev entry_result : Result Results
    entry_result = (handle_entry services receipt signer a s.handler).0

    abbrev after_entry : HandlerState handled World
    after_entry = (handle_entry services receipt signer a s.handler).1

    abbrev next_state : State
    next_state = record s { handler = after_entry }

    abbrev go_on : Result Results → Result Bool × State
    go_on r = elim r [
      | ok results ↦ handle_actions services receipt signer (suc i) actions next_state
      | err e ↦ fail_at services receipt i next_state
    ]
