-- ===== src/Dynamo/Items.antt =====
-- The operations of libs/dynamodb/src/dynamodb.service.ts on one item. The DynamoDB client is an
-- interface; the time of a call is an argument.
pub mod Lookup
pub mod Saving
pub mod Counters
pub mod Others
pub mod InMemory
use astro_api_gateway.Common.{
  ◌≡◌, ℤ, pos, ◌+ℤ◌, negate, Bool, true, false, ◌&&◌, ◌||◌, not, Option, none, some, String,
  str_append, ◌==◌, Result, ok, err, failure, Error, conditional_check_failed, Action, pure, throw,
  catch, ◌>>=◌, ◌>>◌, if◌then◌else◌,
}
use astro_api_gateway.Dynamo.Values.{
  Value, Fields, undefined, null, boolean, number, text, object, array, no_fields, field, set_field,
  from_entries, normalize_data, denormalize_data,
}

-- The partition id and the entity id of an item.
abbrev pub Key : Type 0
Key = String × String

abbrev pub key_eq : Key → Key → Bool
key_eq (p, e) (q, f) = p == q && e == f

abbrev pub is_some : Option Fields → Bool
is_some none = false
is_some (some item) = true

abbrev pub is_ok : {A : Type 0} → Result A → Bool
is_ok (ok a) = true
is_ok (err e) = false

-- `{ ...a, ...b }`
unfoldable pub spread : Fields → Fields → Fields
spread a b = from_entries a b

abbrev pub key_fields : Key → Fields
key_fields (p, e) = field "partitionId" (text p) (field "entityId" (text e) no_fields)

-- What an update leaves of an item: the attributes of `SET` are set. A missing item is made.
abbrev pub updated : Key → Fields → Option Fields → Fields
updated k new none = spread (key_fields k) new
updated k new (some old) = spread old new

-- The document client: `put` and `delete` of one item, `update` by `SET` with the new attributes, and
-- `get`. A Boolean argument asks for the condition on the existence of the item. A call fails where
-- the database cannot be reached.
pub record DocumentClient : Type 1 where
  pub Table : Type 0
  pub look_up : Key → Table → Option Fields
  pub reachable : Table → Bool
  pub put : Bool → Key → Fields → Action Table (Unit {0})
  pub update : Bool → Key → Fields → Action Table Fields
  pub read : Key → Action Table (Option Fields)
  pub delete : Bool → Key → Action Table (Option Fields)
  pub put_answer :
      (new : Bool) (k : Key) (item : Fields) (t : Table)
      → (put new k item t).0 ≡ (
          if not (reachable t)
          then err failure
          else if new && is_some (look_up k t)
          then err conditional_check_failed
          else ok tt)
  pub look_up-put :
      (new : Bool) (j k : Key) (item : Fields) (t : Table)
      → look_up j (put new k item t).1
        ≡ (if is_ok (put new k item t).0 && key_eq k j then some item else look_up j t)
  pub update_answer :
      (old : Bool) (k : Key) (fields : Fields) (t : Table)
      → (update old k fields t).0 ≡ (
          if not (reachable t)
          then err failure
          else if old && not (is_some (look_up k t))
          then err conditional_check_failed
          else ok (updated k fields (look_up k t)))
  pub look_up-update :
      (old : Bool) (j k : Key) (fields : Fields) (t : Table)
      → look_up j (update old k fields t).1 ≡ (
          if is_ok (update old k fields t).0 && key_eq k j
          then some (updated k fields (look_up k t))
          else look_up j t)
  pub read_answer :
      (k : Key) (t : Table)
      → (read k t).0 ≡ (if not (reachable t) then err failure else ok (look_up k t))
  pub look_up-read : (j k : Key) (t : Table) → look_up j (read k t).1 ≡ look_up j t
  pub delete_answer :
      (old : Bool) (k : Key) (t : Table)
      → (delete old k t).0 ≡ (
          if not (reachable t)
          then err failure
          else if old && not (is_some (look_up k t))
          then err conditional_check_failed
          else ok (look_up k t))
  pub look_up-delete :
      (old : Bool) (j k : Key) (t : Table)
      → look_up j (delete old k t).1
        ≡ (if is_ok (delete old k t).0 && key_eq k j then none else look_up j t)

-- An object with a partition id and an entity id, with all its fields, these two among them.
pub record PartialEntity : Type 0 where
  pub partition_id : String
  pub entity_id : String
  pub fields : Fields

abbrev pub key_of : PartialEntity → Key
key_of entity = (entity.partition_id, entity.entity_id)

-- `buildEntityId`
abbrev pub build_entity_id : String → String → String
build_entity_id entity_type id = str_append entity_type (str_append ":" id)

-- `{ ...data, partitionId, entityId: buildEntityId(entityType, id), entityType }`
abbrev pub entity_by_type : String → String → String → Fields → PartialEntity
entity_by_type partition_id entity_type id fields =
    let entity_id = build_entity_id entity_type id in
    record {
      partition_id = partition_id;
      entity_id = entity_id;
      fields = spread fields (
          field "partitionId" (text partition_id)
            (field "entityId" (text entity_id) (field "entityType" (text entity_type) no_fields)));
    }

-- The fields that `...v` spreads.
abbrev pub fields_of : Value → Fields
fields_of (object fs) = fs
fields_of v = no_fields

unfoldable pub normalized : Fields → Fields
normalized fs = fields_of (normalize_data (object fs))

unfoldable pub denormalized : Fields → Fields
denormalized fs = fields_of (denormalize_data (object fs))

abbrev pub is_key_field : String → Bool
is_key_field k = k == "partitionId" || (k == "entityId" || k == "entityType")

-- `const { partitionId, entityId, entityType, ...rest } = data`
unfoldable pub rest_of : Fields → Fields
rest_of no_fields = no_fields
rest_of (field k v fs) = if is_key_field k then rest_of fs else field k v (rest_of fs)

-- What is put for an object, at a time.
unfoldable pub data_to_put : ℤ → Fields → Fields
unfolding spread normalized
data_to_put now fields =
    spread (field "createdAt" (number now) (field "updatedAt" (number now) no_fields))
      (normalized fields)

unfoldable pub data_to_update : ℤ → Fields → Fields
unfolding spread normalized rest_of
data_to_update now fields =
    spread (field "updatedAt" (number now) no_fields) (normalized (rest_of fields))

abbrev pub get_field : String → Fields → Option Value
get_field k no_fields = none
get_field k (field j v fs) = if j == k then some v else get_field k fs

-- `object[key] || 0`, where it is a number; what else `Number` makes of it, added to, is a parameter.
abbrev pub added : (Value → ℤ → Value) → Option Value → ℤ → Value
added number_add none n = number n
added number_add (some undefined) n = number n
added number_add (some null) n = number n
added number_add (some (number m)) n = number (m +ℤ n)
added number_add (some v) n = number_add v n

module _ (client : DocumentClient) where
  open client use {Table, put, update, read, delete}

  unfoldable pub put_item : PartialEntity → Bool → ℤ → Action Table Fields
  unfolding data_to_put denormalized
  put_item entity check_if_exists now = do
    put check_if_exists (key_of entity) (data_to_put now entity.fields)
    pure (denormalized (data_to_put now entity.fields))

  unfoldable pub update_item : PartialEntity → Bool → ℤ → Action Table Fields
  unfolding data_to_update denormalized
  update_item entity check_if_exists now = do
    attributes ← update check_if_exists (key_of entity) (data_to_update now entity.fields)
    pure (denormalized attributes)

  abbrev pub shown : Option Fields → Option Fields
  shown none = none
  shown (some item) = some (denormalized item)

  -- `getItemById` with the read of a table.
  unfoldable pub get_item_from :
      (Key → Action Table (Option Fields)) → Key → Bool → Action Table (Option Fields)
  get_item_from read_item k check_if_exists =
      catch (do item ← read_item k; pure (shown item))
        (λ e. if check_if_exists then throw e else pure none)

  unfoldable pub get_item_by_id : Key → Bool → Action Table (Option Fields)
  unfolding get_item_from
  get_item_by_id k check_if_exists = get_item_from read k check_if_exists

  abbrev pub recover : PartialEntity → ℤ → Error → Action Table Fields
  recover entity now conditional_check_failed = update_item entity true now
  recover entity now e = throw e

  -- The times of the two calls.
  unfoldable pub save_item : PartialEntity → ℤ → ℤ → Action Table Fields
  unfolding put_item update_item
  save_item entity now later = catch (put_item entity true now) (recover entity later)

  unfoldable pub archive_item : PartialEntity → Bool → ℤ → ℤ → Action Table Fields
  unfolding save_item spread
  archive_item entity is_archived now later =
      let fields = spread entity.fields (field "isArchived" (boolean is_archived) no_fields) in
      save_item (record entity { fields = fields }) now later

  -- The read of a missing item is followed by the read of a property of `undefined`.
  abbrev pub incremented :
      (Value → ℤ → Value) → PartialEntity → String → ℤ → Option Fields → ℤ → ℤ → Action Table Fields
  incremented number_add entity f value none now later = throw failure
  incremented number_add entity f value (some item) now later =
      let total = added number_add (get_field f item) value in
      save_item (record entity { fields = spread item (field f total no_fields) }) now later

  -- The item is read from the table that is named, by `read_item`, and saved in the service's own table.
  unfoldable pub increment :
      (Value → ℤ → Value)
      → (Key → Action Table (Option Fields))
      → PartialEntity
      → String
      → ℤ
      → ℤ
      → ℤ
      → Action Table Fields
  unfolding get_item_from save_item spread
  increment number_add read_item entity f value now later = do
    item ← get_item_from read_item (key_of entity) true
    incremented number_add entity f value item now later

  -- `decrement` adds the value that it is given, which is -1 where it is given none.
  abbrev pub decrement :
      (Value → ℤ → Value)
      → (Key → Action Table (Option Fields))
      → PartialEntity
      → String
      → ℤ
      → ℤ
      → ℤ
      → Action Table Fields
  decrement number_add read_item entity f value now later =
      increment number_add read_item entity f value now later

  unfoldable pub delete_item : PartialEntity → Bool → Action Table (Option Fields)
  delete_item entity check_if_exists = delete check_if_exists (key_of entity)

  -- The operations by the type and the id of an entity.
  abbrev pub update_item_by_type :
      String → String → String → Fields → Bool → ℤ → Action Table Fields
  update_item_by_type partition_id entity_type id fields check_if_exists now =
      update_item (entity_by_type partition_id entity_type id fields) check_if_exists now

  abbrev pub get_item_by_type : String → String → String → Bool → Action Table (Option Fields)
  get_item_by_type partition_id entity_type id check_if_exists =
      get_item_by_id (partition_id, build_entity_id entity_type id) check_if_exists

  abbrev pub put_item_by_type : String → String → String → Fields → Bool → ℤ → Action Table Fields
  put_item_by_type partition_id entity_type id fields check_if_exists now =
      put_item (entity_by_type partition_id entity_type id fields) check_if_exists now

  abbrev pub save_item_by_type : String → String → String → Fields → ℤ → ℤ → Action Table Fields
  save_item_by_type partition_id entity_type id fields now later =
      save_item (entity_by_type partition_id entity_type id fields) now later

  abbrev pub archive_item_by_type : String → String → String → Bool → ℤ → ℤ → Action Table Fields
  archive_item_by_type partition_id entity_type id is_archived now later =
      archive_item (entity_by_type partition_id entity_type id no_fields) is_archived now later

  abbrev pub increment_by_type :
      (Value → ℤ → Value)
      → (Key → Action Table (Option Fields))
      → String
      → String
      → String
      → String
      → ℤ
      → ℤ
      → ℤ
      → Action Table Fields
  increment_by_type number_add read_item partition_id entity_type id f value now later =
      increment number_add read_item (entity_by_type partition_id entity_type id no_fields) f value
        now later

  abbrev pub decrement_by_type :
      (Value → ℤ → Value)
      → (Key → Action Table (Option Fields))
      → String
      → String
      → String
      → String
      → ℤ
      → ℤ
      → ℤ
      → Action Table Fields
  decrement_by_type number_add read_item partition_id entity_type id f value now later =
      increment_by_type number_add read_item partition_id entity_type id f value now later

  abbrev pub delete_item_by_type : String → String → String → Bool → Action Table (Option Fields)
  delete_item_by_type partition_id entity_type id check_if_exists =
      delete_item (entity_by_type partition_id entity_type id no_fields) check_if_exists
