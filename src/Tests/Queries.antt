-- ===== src/Tests/Queries.antt =====
-- The theorems on the queries of DynamoDB at a client in memory.
use astro_api_gateway.Common.{
  ℕ, ◌≡◌, ◌<◌, refl, Bool, true, false, ◌&&◌, starts_with, err, failure, eq_iff, Bool-cases, inl,
  inr, Option, none, some, List, [], ◌∷◌, ◌++◌, String, map, ok, arith, ◌==◌, if◌then◌else◌,
}
use astro_api_gateway.Cache.Chunks.{concat}
use astro_api_gateway.Dynamo.Values.{Fields, text, no_fields, field}
use astro_api_gateway.Dynamo.Items.{Key, denormalized}
use astro_api_gateway.Dynamo.Queries.{
  Page, Condition, by_type, other, QueryClient, query, paginate_all_items,
  paginate_all_items_by_type,
}
use astro_api_gateway.Dynamo.Queries.Pages.{Paginates, starts_in, paginate_all_items_lem}

abbrev receipt : String → Fields
receipt id = field "entityId" (text id) no_fields

abbrev has_receipts : String → Condition (Unit {0}) → Bool
has_receipts name (by_type partition_id prefix) =
    name == "Sputnik" && (partition_id == "dao.near" && prefix == "DaoFundsReceipt:")
has_receipts name (other o) = name == "Sputnik"

abbrev within : Condition (Unit {0}) → Key → Bool
within (by_type partition_id prefix) key = partition_id == key.0 && starts_with key.1 prefix
within (other o) key = true

-- Two items, a page for each.
abbrev receipts_from : Option Key → List Fields
receipts_from none = receipt "DaoFundsReceipt:1" ∷ receipt "DaoFundsReceipt:2" ∷ []
receipts_from (some k) = if k.1 == "DaoFundsReceipt:1" then receipt "DaoFundsReceipt:2" ∷ [] else []

abbrev receipts_page : Option Key → Page
receipts_page none = record {
  items = receipt "DaoFundsReceipt:1" ∷ [];
  last_evaluated_key = some ("dao.near", "DaoFundsReceipt:1");
}
receipts_page (some k) = record { items = receipts_from (some k); last_evaluated_key = none }

abbrev keys_from : Option Key → ℕ
keys_from none = 1
keys_from (some k) = 0

abbrev empty_page : Page
empty_page = record { items = []; last_evaluated_key = none }

abbrev rows_page : String → Condition (Unit {0}) → Option Key → Page
rows_page name c start = if has_receipts name c then receipts_page start else empty_page

abbrev two_pages : QueryClient
two_pages = record {
  Table = Unit {0};
  Other = Unit {0};
  run_query = λ name c start t.
      if starts_in within c start then (ok (rows_page name c start), t) else (err failure, t);
}

last_within :
    (name : String) (c : Condition (Unit {0})) (start : Option Key) (key : Key)
    → (rows_page name c start).last_evaluated_key ≡ some key
    → within c key ≡ true
last_within name (other o) start key h = refl
last_within name (by_type p prefix) (some k) key h = absurd (ground arith)
last_within name (by_type p prefix) none key h =
    elim (Bool-cases (has_receipts name (by_type p prefix))) [
      | inr lacks ↦ absurd (ground arith)
      | inl has ↦
          let at : ("dao.near", "DaoFundsReceipt:1") ≡ key = ground arith in
          let whole : prefix ≡ "DaoFundsReceipt:" =
            (eq_iff prefix "DaoFundsReceipt:").0 (ground arith) in
          rw (← at, whole) (ground arith)
    ]

pages_last :
    (b : Bool) (start : Option Key)
    → (if b then receipts_page start else empty_page).last_evaluated_key ≡ none
    → (if b then receipts_from start else [])
      ≡ (if b then receipts_page start else empty_page).items
pages_last true none h = absurd (ground arith)
pages_last true (some k) h = refl
pages_last false start h = refl

pages_more :
    (b : Bool) (start : Option Key) (key : Key)
    → (if b then receipts_page start else empty_page).last_evaluated_key ≡ some key
    → (if b then receipts_from start else [])
      ≡ (if b then receipts_page start else empty_page).items
        ++ (if b then receipts_from (some key) else [])
pages_more true none key h =
    let at : ("dao.near", "DaoFundsReceipt:1") ≡ key = ground arith in rw (← at) refl
pages_more true (some k) key h = absurd (ground arith)
pages_more false start key h = absurd (ground arith)

pages_fewer :
    (b : Bool) (start : Option Key) (key : Key)
    → (if b then receipts_page start else empty_page).last_evaluated_key ≡ some key
    → keys_from (some key) < keys_from start
pages_fewer true none key h = omega arith
pages_fewer true (some k) key h = absurd (ground arith)
pages_fewer false start key h = absurd (ground arith)

abbrev two_pages-Paginates : Paginates two_pages
two_pages-Paginates = record {
  in_range = within;
  matching = λ name c start t. if has_receipts name c then receipts_from start else [];
  keys_left = λ name c start t. keys_from start;
  page_at = λ name c start t. rows_page name c start;
  in_range-by_type = λ p prefix key. refl;
  run_query-answer = λ name c start t inside. rw (inside) refl;
  run_query-outside = λ name c key t outside. rw (outside) refl;
  last-in_range = λ name c start key t inside. last_within name c start key;
  matching_last = λ name c start t. pages_last (has_receipts name c) start;
  matching_more = λ name c start key t. pages_more (has_receipts name c) start key;
  keys_left_fewer = λ name c start key t. pages_fewer (has_receipts name c) start key;
}

paginate_all_items_lem_example :
    (xss : List (List Fields)) × (paginate_all_items two_pages 2 (other tt) none "Sputnik" tt
      ≡ (ok xss, tt))
    × (concat xss ≡ map denormalized (receipts_from none))
paginate_all_items_lem_example =
    paginate_all_items_lem two_pages two_pages-Paginates 2 (other tt) none "Sputnik" tt refl
      (omega arith)

second_page_throws :
    paginate_all_items_by_type two_pages 3 "Sputnik" "dao.near" "DaoFundsReceipt" none "" "Sputnik"
      tt
    ≡ (err failure, tt)
unfolding paginate_all_items_by_type query
second_page_throws = refl
