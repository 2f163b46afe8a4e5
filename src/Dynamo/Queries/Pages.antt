-- ===== src/Dynamo/Queries/Pages.antt =====
-- The pages of `paginateAllItems`.
use astro_api_gateway.Common.{
  ℕ, zero, suc, ◌≡◌, ◌<◌, refl, ap, ◌∙◌, Bool, true, false, ◌&&◌, Option, none, some, List, [], ◌∷◌,
  ◌++◌, String, ◌==◌, starts_with, map, ok, err, failure, Action, pure, bind-ok, sym, arith,
}
use mathlib.Core.List.{append-nil}
use astro_api_gateway.Cache.Chunks.{concat}
use astro_api_gateway.Dynamo.Values.{Fields}
use astro_api_gateway.Dynamo.Items.{Key, denormalized}
use astro_api_gateway.Dynamo.Queries.{
  Page, Condition, by_type, QueryClient, query, yield_page, paginate_all_items,
}

-- A query starts at the beginning, or at a key within its conditions.
abbrev pub starts_in :
    {Other : Type 0} → (Condition Other → Key → Bool) → Condition Other → Option Key → Bool
starts_in in_range c none = true
starts_in in_range c (some key) = in_range c key

-- What is documented of a query that the database takes: it changes nothing, and a page has the first of
-- the items of the table that are left after the start key; the others are left after the last key, if
-- there is one, which is within the conditions. A start key outside of them is an error.
pub record Paginates (client : QueryClient) : Type 0 where
  pub in_range : Condition client.Other → Key → Bool
  -- the items of a table that match, after a key, and the number of the keys that are left to be read
  pub matching : String → Condition client.Other → Option Key → client.Table → List Fields
  pub keys_left : String → Condition client.Other → Option Key → client.Table → ℕ
  pub page_at : String → Condition client.Other → Option Key → client.Table → Page
  pub in_range-by_type :
      (partition_id prefix : String) (key : Key)
      → in_range (by_type partition_id prefix) key
        ≡ (partition_id == key.0 && starts_with key.1 prefix)
  pub run_query-answer :
      (name : String) (c : Condition client.Other) (start : Option Key) (t : client.Table)
      → starts_in in_range c start ≡ true
      → client.run_query name c start t ≡ (ok (page_at name c start t), t)
  pub run_query-outside :
      (name : String) (c : Condition client.Other) (key : Key) (t : client.Table)
      → in_range c key ≡ false
      → client.run_query name c (some key) t ≡ (err failure, t)
  pub last-in_range :
      (name : String) (c : Condition client.Other) (start : Option Key) (key : Key)
      (t : client.Table)
      → starts_in in_range c start ≡ true
      → (page_at name c start t).last_evaluated_key ≡ some key
      → in_range c key ≡ true
  pub matching_last :
      (name : String) (c : Condition client.Other) (start : Option Key) (t : client.Table)
      → (page_at name c start t).last_evaluated_key ≡ none
      → matching name c start t ≡ (page_at name c start t).items
  pub matching_more :
      (name : String) (c : Condition client.Other) (start : Option Key) (key : Key)
      (t : client.Table)
      → (page_at name c start t).last_evaluated_key ≡ some key
      → matching name c start t ≡ (page_at name c start t).items ++ matching name c (some key) t
  pub keys_left_fewer :
      (name : String) (c : Condition client.Other) (start : Option Key) (key : Key)
      (t : client.Table)
      → (page_at name c start t).last_evaluated_key ≡ some key
      → keys_left name c (some key) t < keys_left name c start t

pub map-append :
    {A B : Type 0} (f : A → B) (xs ys : List A) → map f (xs ++ ys) ≡ map f xs ++ map f ys
map-append f [] ys = refl
map-append f (x ∷ xs) ys = rw (map-append f xs ys) refl

module _ (client : QueryClient) (laws : Paginates client) where
  open client use {Table, Other}
  open laws use {
    in_range, matching, keys_left, page_at, run_query-answer, last-in_range, matching_last,
    matching_more, keys_left_fewer,
  }

  abbrev pub shown_page : Page → Page
  shown_page page = record page { items = map denormalized page.items }

  pub query-answer :
      (name : String) (c : Condition Other) (start : Option Key) (t : Table)
      → starts_in in_range c start ≡ true
      → query client name c start t ≡ (ok (shown_page (page_at name c start t)), t)
  unfolding query
  query-answer name c start t inside =
      bind-ok (client.run_query name c start) (λ page. pure (shown_page page)) t t
        (page_at name c start t) (run_query-answer name c start t inside)

  -- A generator that goes on after each page answers its items in order.
  abbrev pub Answers :
      String → Condition Other → Option Key → Table → Action Table (List (List Fields)) → Type 0
  Answers name c start t pages =
      (xss : List (List Fields)) × (pages t ≡ (ok xss, t))
      × (concat xss ≡ map denormalized (matching name c start t))

  pub yield_page-Answers :
      (name : String) (c : Condition Other) (start last : Option Key) (t : Table)
      (more : Key → Action Table (List (List Fields)))
      → (page_at name c start t).last_evaluated_key ≡ last
      → ((key : Key) → last ≡ some key → Answers name c (some key) t (more key))
      → Answers name c start t
          (yield_page client (map denormalized (page_at name c start t).items) last more)
  yield_page-Answers name c start none t more e h = (
    map denormalized (page_at name c start t).items ∷ [],
    refl,
    append-nil (map denormalized (page_at name c start t).items)
        ∙ ap (map denormalized) (sym (matching_last name c start t e)),
  )
  yield_page-Answers name c start (some key) t more e h =
      let items = map denormalized (page_at name c start t).items in
      let (xss, said, whole) = h key refl in
      (
        items ∷ xss,
        bind-ok (more key) (λ pages. pure (items ∷ pages)) t t xss said,
        rw (whole, matching_more name c start key t e)
            (rw
              (map-append denormalized (page_at name c start t).items
                (matching name c (some key) t))
              refl),
      )

  -- Where the database takes the queries, `paginateAllItems` from the beginning, or from a key within the
  -- conditions, ends, and its pages have the items of the named table that match, each once and in their
  -- order. As many rounds as there are keys left are enough.
  pub paginate_all_items_lem :
      (fuel : ℕ) (c : Condition Other) (start : Option Key) (name : String) (t : Table)
      → starts_in in_range c start ≡ true
      → keys_left name c start t < fuel
      → Answers name c start t (paginate_all_items client fuel c start name)
  unfolding paginate_all_items
  paginate_all_items_lem zero c start name t inside enough = absurd (omega arith)
  paginate_all_items_lem (suc fuel) c start name t inside enough =
      let page = page_at name c start t in
      let rest = λ (key : Key). paginate_all_items client fuel c (some key) name in
      let items = map denormalized page.items in
      let (xss, said, whole) =
        yield_page-Answers name c start page.last_evaluated_key t rest refl (λ key e.
          paginate_all_items_lem fuel c (some key) name t
            (last-in_range name c start key t inside e)
            (omega (arith, keys_left_fewer name c start key t e))) in
      (
        xss,
        bind-ok (query client name c start)
              (λ p. yield_page client p.items p.last_evaluated_key rest) t t (shown_page page)
              (query-answer name c start t inside)
            ∙ said,
        whole,
      )
