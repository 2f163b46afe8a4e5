-- ===== src/Dynamo/Queries.antt =====
-- `query`, `queryByType`, `paginateAllItems` and `paginateAllItemsByType` of
-- libs/dynamodb/src/dynamodb.service.ts. The generators are the lists of the pages that they yield, on
-- fuel. The client's query is an interface.
pub mod Pages
pub mod Prefixes
use astro_api_gateway.Common.{
  ℕ, zero, suc, ◌≡◌, ◌<◌, Option, none, some, List, [], ◌∷◌, ◌++◌, String, map, ok, failure, Action,
  pure, throw, ◌>>=◌,
}
use astro_api_gateway.Dynamo.Values.{Fields}
use astro_api_gateway.Dynamo.Items.{Key, build_entity_id, denormalized}

-- A page of items, with `LastEvaluatedKey`.
pub record Page : Type 0 where
  pub items : List Fields
  pub last_evaluated_key : Option Key

-- `partitionId = :partitionId and begins_with(entityId, :entityIdPrefix)`, or the conditions of another
-- query.
pub data Condition (Other : Type 0) : Type 0 where
  by_type : String → String → Condition Other
  other : Other → Condition Other

pub record QueryClient : Type 1 where
  pub Table : Type 0
  pub Other : Type 0
  -- the name of the table, the conditions and `ExclusiveStartKey`
  pub run_query : String → Condition Other → Option Key → Action Table Page

module _ (client : QueryClient) where
  open client use {Table, Other, run_query}

  unfoldable pub query : String → Condition Other → Option Key → Action Table Page
  unfolding denormalized
  query table_name condition start = do
    page ← run_query table_name condition start
    pure (record page { items = map denormalized page.items })

  abbrev pub query_by_type : String → String → Option Key → String → String → Action Table Page
  query_by_type partition_id entity_type start id_prefix table_name =
      query table_name (by_type partition_id (build_entity_id entity_type id_prefix)) start

  -- `yield Items; if (LastEvaluatedKey) yield* …`
  abbrev pub yield_page :
      List Fields
      → Option Key
      → (Key → Action Table (List (List Fields)))
      → Action Table (List (List Fields))
  yield_page items none more = pure (items ∷ [])
  yield_page items (some key) more = do pages ← more key; pure (items ∷ pages)

  unfoldable pub paginate_all_items :
      ℕ → Condition Other → Option Key → String → Action Table (List (List Fields))
  unfolding query
  paginate_all_items zero condition start table_name = throw failure
  paginate_all_items (suc fuel) condition start table_name = do
    page ← query table_name condition start
    yield_page page.items page.last_evaluated_key
        (λ key. paginate_all_items fuel condition (some key) table_name)

  -- `default` is the name of the service's table. The generator calls itself without the prefix: the
  -- name of the table stands in the prefix's place, and the table is the default one.
  unfoldable pub paginate_all_items_by_type :
      ℕ
      → String
      → String
      → String
      → Option Key
      → String
      → String
      → Action Table (List (List Fields))
  unfolding query
  paginate_all_items_by_type zero default partition_id entity_type start id_prefix table_name =
      throw failure
  paginate_all_items_by_type (suc fuel) default partition_id entity_type start id_prefix
        table_name =
      do
        page ← query_by_type partition_id entity_type start id_prefix table_name
        yield_page page.items page.last_evaluated_key (λ key.
            paginate_all_items_by_type fuel default partition_id entity_type (some key) table_name
              default)
