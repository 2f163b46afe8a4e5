-- ===== src/Dynamo/Items/InMemory.antt =====
-- A document client in memory: a list of items by their keys, and whether the database is reached.
use astro_api_gateway.Common.{
  ◌≡◌, Bool, false, ◌&&◌, not, Option, none, some, List, [], ◌∷◌, ok, err, failure,
  conditional_check_failed, Action, if◌then◌else◌, eq_iff, arith,
}
use astro_api_gateway.Dynamo.Values.{Fields}
use astro_api_gateway.Dynamo.Items.{Key, key_eq, is_some, updated, DocumentClient}

pub record Stored : Type 0 where
  pub up : Bool
  pub items : List (Key × Fields)

abbrev item_at : Key → List (Key × Fields) → Option Fields
item_at k [] = none
item_at k ((j, item) ∷ t) = if key_eq j k then some item else item_at k t

abbrev without_key : Key → List (Key × Fields) → List (Key × Fields)
without_key k [] = []
without_key k ((j, item) ∷ t) = if key_eq j k then without_key k t else (j, item) ∷ without_key k t

pub item_at-without_key :
    (j k : Key) (t : List (Key × Fields))
    → item_at j (without_key k t) ≡ (if key_eq k j then none else item_at j t)
item_at-without_key (a, b) (p, q) [] = ground arith
item_at-without_key (a, b) (p, q) (((x, y), item) ∷ t) = ground (
  arith,
  item_at-without_key (a, b) (p, q) t,
  eq_iff x p,
  eq_iff y q,
  eq_iff x a,
  eq_iff y b,
  eq_iff p a,
  eq_iff q b,
)

-- The answer of a call, with what it makes of the items where its condition holds.
abbrev call : {A : Type 0} → Bool → A → List (Key × Fields) → Action Stored A
call refused a items s =
    if not s.up
    then (err failure, s)
    else if refused
    then (err conditional_check_failed, s)
    else (ok a, record s { items = items })

abbrev pub stored_items : DocumentClient
stored_items = record {
  Table = Stored;
  look_up = λ k t. item_at k t.items;
  reachable = λ t. t.up;
  put = λ new k item t. call (new && is_some (item_at k t.items)) tt ((k, item) ∷ t.items) t;
  update = λ old k new t.
      let item = updated k new (item_at k t.items) in
      call (old && not (is_some (item_at k t.items))) item ((k, item) ∷ t.items) t;
  read = λ k t. call false (item_at k t.items) t.items t;
  delete = λ old k t.
      call (old && not (is_some (item_at k t.items))) (item_at k t.items) (without_key k t.items) t;
  put_answer = λ new k item t. ground arith;
  look_up-put = λ new j k item t. ground arith;
  update_answer = λ old k new t. ground arith;
  look_up-update = λ old j k new t. ground arith;
  read_answer = λ k t. ground arith;
  look_up-read = λ j k t. ground arith;
  delete_answer = λ old k t. ground arith;
  look_up-delete = λ old j k t. ground (arith, item_at-without_key j k t.items);
}
