-- ===== src/Indexer/Errors.antt =====
-- libs/error-tracker/src: the errors of the processor, in DynamoDB and in the SQL database, and the list
-- of the open ones. A feature flag says which of the two is read.
use astro_api_gateway.Common.{
  Bool, true, false, Option, none, some, List, [], ◌∷◌, ◌++◌, String, includes, without, failure,
  Action, throw, gets, modify, ◌>>=◌, ◌>>◌, if◌then◌else◌,
}
use astro_api_gateway.Common.Repository.{Repository, update}
use astro_api_gateway.Indexer.Entries.{ReceiptEntry}

pub data ErrorStatus : Type 0 where
  open_error in_progress_error resolved : ErrorStatus

pub data ErrorType : Type 0 where
  indexer_processor : ErrorType

-- An error, with the receipt of its metadata. The type is missing where only a status was saved.
pub record TrackedError : Type 0 where
  pub type : Option ErrorType
  pub status : ErrorStatus
  pub receipt : Option ReceiptEntry

pub record ErrorTracker (items entities : Repository TrackedError) : Type 0 where
  pub use_dynamo : Bool
  pub stored_items : items.Table
  pub stored_entities : entities.Table
  -- whether DynamoDB answers a read now; one that fails is answered as a missing item
  pub dynamo_reads : Bool
  -- the item with the ids of the open errors
  pub open_error_ids : Option (List String)

-- The answer of a read of DynamoDB.
abbrev pub read_item : {A : Type 0} → Bool → Option A → Option A
read_item true item = item
read_item false item = none

abbrev pub set_status : ErrorStatus → TrackedError → TrackedError
set_status status error = record error { status = status }

abbrev pub add_id : String → List String → List String
add_id id ids = if includes ids id then ids else ids ++ id ∷ []

module _ (items entities : Repository TrackedError) where
  abbrev Tracker : Type 0
  Tracker = ErrorTracker items entities

  abbrev change_ids : (List String → List String) → Option (List String) → Action Tracker (Unit {0})
  change_ids change none = throw failure
  change_ids change (some ids) = modify (λ t. record t { open_error_ids = some (change ids) })

  unfoldable pub add_open_error_id : String → Action Tracker (Unit {0})
  add_open_error_id id = do
    ids ← gets (λ t. read_item t.dynamo_reads t.open_error_ids)
    change_ids (add_id id) ids

  unfoldable pub remove_open_error_id : String → Action Tracker (Unit {0})
  remove_open_error_id id = do
    ids ← gets (λ t. read_item t.dynamo_reads t.open_error_ids)
    change_ids (without id) ids

  -- `errorRepository.save(error)`: a status that is there is kept, a new error is open.
  abbrev saved_entity : TrackedError → Option TrackedError → TrackedError
  saved_entity error none = error
  saved_entity error (some old) = record error { status = old.status }

  unfoldable pub create_error : String → ReceiptEntry → Action Tracker (Unit {0})
  unfolding add_open_error_id
  create_error id receipt = do
    let error : TrackedError = record {
      type = some indexer_processor;
      status = open_error;
      receipt = some receipt;
    }
    modify (λ t. record t { stored_items = items.put id error t.stored_items })
    add_open_error_id id
    modify (λ t. record t {
      stored_entities =
          entities.put id (saved_entity error (entities.find_one id t.stored_entities))
            t.stored_entities;
    })

  unfoldable pub get_error_by_id : String → Tracker → Option TrackedError
  get_error_by_id id t =
      if t.use_dynamo
      then read_item t.dynamo_reads (items.find_one id t.stored_items)
      else entities.find_one id t.stored_entities

  -- What `saveItem` makes of an item with a new status.
  abbrev saved_status : ErrorStatus → Option TrackedError → TrackedError
  saved_status status none = record { type = none; status = status; receipt = none }
  saved_status status (some old) = set_status status old

  abbrev change_open_ids : ErrorStatus → String → Action Tracker (Unit {0})
  change_open_ids open_error id = add_open_error_id id
  change_open_ids status id = remove_open_error_id id

  unfoldable pub set_error_status : String → ErrorStatus → Action Tracker (Unit {0})
  unfolding add_open_error_id remove_open_error_id update
  set_error_status id status = do
    change_open_ids status id
    modify (λ t. record t {
      stored_items =
          items.put id (saved_status status (items.find_one id t.stored_items)) t.stored_items;
    })
    modify (λ t. record t {
      stored_entities = update entities id (set_status status) t.stored_entities;
    })
