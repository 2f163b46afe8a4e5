-- ===== src/Tests/Tables.antt =====
-- The theorems on the batches of DynamoDB at clients in memory.
use astro_api_gateway.Common.{
  ℕ, ℤ, pos, ◌+◌, ◌≡◌, ◌<◌, refl, Bool, Option, some, List, [], ◌∷◌, String, length, map, ok, All,
  arith, ◌==◌,
}
use astro_api_gateway.Dynamo.Values.{
  Value, Fields, text, from_entries, normalize_data, no_fields, field,
}
use astro_api_gateway.Dynamo.Items.{Key, key_eq, get_field, PartialEntity, key_of, data_to_put}
use astro_api_gateway.Dynamo.Batches.{BatchClient, batch_put, batch_delete, get_rounds}
use astro_api_gateway.Dynamo.Batches.Requests.{count, AreDistinct}
use astro_api_gateway.Dynamo.Batches.Written.{DoesWrites, batch_put_lem, batch_delete_lem}
use astro_api_gateway.Dynamo.Batches.Lost
use astro_api_gateway.Dynamo.Batches.Lost.{Answers, Rounds, get_rounds-first}

-- A client that does one write and one read a call.
abbrev one_at_a_time : (Request : Type 0) → BatchClient Request
one_at_a_time Request = record {
  Table = List Request;
  batch_write = λ xs t. elim xs [ [] ↦ (ok [], t) | x ∷ rest ↦ (ok rest, x ∷ t) ];
  batch_get = λ keys t. elim keys [
    | [] ↦ (ok ([], []), t)
    | k ∷ ks ↦ (ok (field "id" (text k.1) no_fields ∷ [], ks), t)
  ];
}

module _ (Request : Type 0) where
  abbrev answer_of :
      (xs t : List Request)
      → (rest : List Request) × (after : List Request) × ((one_at_a_time Request).batch_write xs t
          ≡ (ok rest, after))
  answer_of [] t = ([], t, refl)
  answer_of (x ∷ xs) t = (xs, x ∷ t, refl)

  abbrev counted_once :
      (p : Request → Bool) (xs rest t after : List Request)
      → (one_at_a_time Request).batch_write xs t ≡ (ok rest, after)
      → count p after + count p rest ≡ count p t + count p xs
  counted_once p [] rest t after h = ground arith
  counted_once p (x ∷ xs) rest t after h = ground arith

  abbrev fewer_rest :
      (xs rest t after : List Request)
      → (one_at_a_time Request).batch_write xs t ≡ (ok rest, after)
      → 0 < length xs
      → length rest < length xs
  fewer_rest [] rest t after h full = absurd (ground arith)
  fewer_rest (x ∷ xs) rest t after h full = ground arith

  abbrev rest_of_call :
      (P : Request → Type 0) (xs rest t after : List Request)
      → (one_at_a_time Request).batch_write xs t ≡ (ok rest, after)
      → All P xs
      → All P rest
  rest_of_call P [] rest t after h all =
      let none_left : [] ≡ rest = ground arith in rw (← none_left) tt
  rest_of_call P (x ∷ xs) rest t after h (px, all) =
      let left : xs ≡ rest = ground arith in rw (← left) all

  abbrev rest_distinct :
      (same : Request → Request → Bool) (xs rest t after : List Request)
      → (one_at_a_time Request).batch_write xs t ≡ (ok rest, after)
      → AreDistinct same xs
      → AreDistinct same rest
  rest_distinct same [] rest t after h d =
      let none_left : [] ≡ rest = ground arith in rw (← none_left) tt
  rest_distinct same (x ∷ xs) rest t after h (new, d) =
      let left : xs ≡ rest = ground arith in rw (← left) d

  abbrev writes_once : (Request → Request → Bool) → DoesWrites (one_at_a_time Request)
  writes_once same = record {
    written = λ p t. count p t;
    same_item = same;
    answers = λ xs t full size distinct. answer_of xs t;
    rest-AreDistinct = rest_distinct same;
    written-batch_write = counted_once;
    some_done = fewer_rest;
    of_the_call = rest_of_call;
  }

abbrev two_items : List Fields
two_items =
    field "entityId" (text "Otp:1") no_fields ∷ field "entityId" (text "Otp:2") no_fields ∷ []

abbrev clock : ℕ → ℤ
clock n = pos (1000 + n)

stamped_once :
    (id : String) (m n : ℕ)
    → data_to_put (clock n) (data_to_put (clock m) (field "entityId" (text id) no_fields))
      ≡ data_to_put (clock m) (field "entityId" (text id) no_fields)
unfolding data_to_put from_entries normalize_data
stamped_once id m n = refl

abbrev entity_text : Option Value → String
entity_text (some (text s)) = s
entity_text v = ""

abbrev same_entity : Fields → Fields → Bool
same_entity a b = entity_text (get_field "entityId" a) == entity_text (get_field "entityId" b)

two_distinct : AreDistinct same_entity (map (data_to_put (clock 0)) two_items)
unfolding data_to_put from_entries normalize_data
two_distinct = (refl, (refl, tt))

batch_put_lem_example :
    (after : List Fields) × (batch_put (one_at_a_time Fields) clock two_items [] ≡ (ok 2, after))
    × ((p : Fields → Bool)
        → count p after ≡ 0 + count p (map (data_to_put (pos (1000 + 0))) two_items))
batch_put_lem_example =
    batch_put_lem (one_at_a_time Fields) (writes_once Fields same_entity) clock two_items []
      two_distinct (stamped_once "Otp:1", (stamped_once "Otp:2", tt))

abbrev two_entities : List PartialEntity
two_entities =
    record { partition_id = "a.near"; entity_id = "Otp:1"; fields = no_fields }
    ∷ record { partition_id = "a.near"; entity_id = "Otp:2"; fields = no_fields }
    ∷ []

batch_delete_lem_example :
    (after : List Key) × (batch_delete (one_at_a_time Key) two_entities [] ≡ (ok 2, after))
    × ((p : Key → Bool) → count p after ≡ 0 + count p (map key_of two_entities))
batch_delete_lem_example =
    batch_delete_lem (one_at_a_time Key) (writes_once Key key_eq) two_entities [] (refl, (refl, tt))

abbrev read_answer :
    (keys t : List Key)
    → (items : List Fields) × (left : List Key) × (after : List Key) × ((one_at_a_time
            Key).batch_get
          keys t
        ≡ (ok (items, left), after))
read_answer [] t = ([], [], t, refl)
read_answer (k ∷ ks) t = (field "id" (text k.1) no_fields ∷ [], ks, t, refl)

abbrev fewer_keys :
    (keys left : List Key) (items : List Fields) (t after : List Key)
    → (one_at_a_time Key).batch_get keys t ≡ (ok (items, left), after)
    → 0 < length keys
    → length left < length keys
fewer_keys [] left items t after h full = absurd (omega arith)
fewer_keys (k ∷ ks) left items t after h full = ground arith

abbrev distinct_keys :
    (keys left : List Key) (items : List Fields) (t after : List Key)
    → (one_at_a_time Key).batch_get keys t ≡ (ok (items, left), after)
    → Lost.AreDistinct keys
    → Lost.AreDistinct left
distinct_keys [] left items t after h d =
    let none_left : [] ≡ left = ground arith in rw (← none_left) tt
distinct_keys (k ∷ ks) left items t after h (new, d) =
    let rest : ks ≡ left = ground arith in rw (← rest) d

abbrev reads_once : Answers (one_at_a_time Key)
reads_once = record {
  answers_get = λ keys t full size distinct. read_answer keys t;
  fewer_left = fewer_keys;
  left-AreDistinct = distinct_keys;
}

abbrev two_keys : List Key
two_keys = ("a.near", "Otp:1") ∷ ("a.near", "Otp:2") ∷ []

get_rounds-first_example :
    (items : List Fields) × (after : List Key) × (get_rounds (one_at_a_time Key) 2 two_keys []
      ≡ (ok items, after))
    × Rounds (one_at_a_time Key) two_keys [] items after
get_rounds-first_example =
    get_rounds-first (one_at_a_time Key) reads_once 2 two_keys [] (omega arith) (omega arith)
      (refl, (refl, tt))

-- Two keys are asked for; one item is answered.
one_item_of_two :
    get_rounds (one_at_a_time Key) 2 two_keys []
    ≡ (ok (field "id" (text "Otp:1") no_fields ∷ []), [])
unfolding get_rounds
one_item_of_two = refl
