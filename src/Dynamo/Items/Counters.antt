-- ===== src/Dynamo/Items/Counters.antt =====
-- `increment` and `decrement`: what they leave of the numbers of an item.
use astro_api_gateway.Common.{
  ◌≡◌, refl, ap, ◌∙◌, sym, inl, inr, ℤ, ◌+ℤ◌, true, false, Option, some, String, ◌==◌, Result, ok,
  err, failure, Error, Action, pure, ◌>>=◌, if◌then◌else◌, Bool-cases, bind-ok, bind-err, catch-ok,
  catch-err, eq_iff, eq_refl, arith, throw,
}
use astro_api_gateway.Dynamo.Values.{Value, Fields, number, no_fields, field}
use astro_api_gateway.Dynamo.Values.RoundTrip.{HasUniqueKeys}
use astro_api_gateway.Dynamo.Items.{
  Key, key_eq, spread, DocumentClient, PartialEntity, key_of, denormalized, normalized,
  data_to_update, rest_of, is_key_field, get_field, added, save_item, get_item_from, increment,
  incremented, shown,
}
use astro_api_gateway.Dynamo.Items.Lookup.{
  IsPlainKey, get_field-spread, get_field-normalized, get_field-denormalized, get_field-rest_of,
  normalized-HasUniqueKeys, denormalized-HasUniqueKeys, rest_of-HasUniqueKeys,
  from_entries-IsObject,
}
use astro_api_gateway.Dynamo.Items.Saving.{saved, Stores, save_item_lem}

-- A field that is stored as it is and is no part of the key.
abbrev pub IsData : String → Type 0
IsData k = IsPlainKey k × (is_key_field k ≡ false)

-- The fields of the item that `increment` saves.
abbrev counted : Fields → String → ℤ → Fields
counted old f total = spread (denormalized old) (field f (number total) no_fields)

counted-HasUniqueKeys :
    (old : Fields) (f : String) (total : ℤ) → HasUniqueKeys (counted old f total)
unfolding spread
counted-HasUniqueKeys old f total =
    from_entries-IsObject (denormalized old) (field f (number total) no_fields)
      (denormalized-HasUniqueKeys old)

get_field-counted :
    (k f : String) (m total : ℤ) (old : Fields)
    → IsData k
    → HasUniqueKeys old
    → get_field k old ≡ some (number m)
    → get_field k (counted old f total) ≡ some (number (if f == k then total else m))
get_field-counted k f m total old (plain, apart) u h =
    get_field-spread k (denormalized old) (field f (number total) no_fields) (refl, tt)
    ∙ ground (arith, get_field-denormalized k m old plain u h)

-- What the save of a counted item leaves of a number.
saved-counted :
    (entity : PartialEntity) (now later : ℤ) (k f : String) (m total : ℤ) (old : Fields)
    → IsData k
    → HasUniqueKeys old
    → get_field k old ≡ some (number m)
    → get_field k (saved (record entity { fields = counted old f total }) now later (some old))
      ≡ some (number (if f == k then total else m))
unfolding data_to_update
saved-counted entity now later k f m total old (plain, apart) u h =
    let fields = counted old f total in
    let unique : HasUniqueKeys fields = counted-HasUniqueKeys old f total in
    let value = number (if f == k then total else m) in
    let rest : get_field k (normalized (rest_of fields)) ≡ some value =
      get_field-normalized k (if f == k then total else m) (rest_of fields) plain
        (rest_of-HasUniqueKeys fields unique)
        (get_field-rest_of k fields apart ∙ get_field-counted k f m total old (plain, apart) u h) in
    let time = field "updatedAt" (number later) no_fields in
    let new : get_field k (data_to_update later fields) ≡ some value =
      get_field-spread k time (normalized (rest_of fields))
        (normalized-HasUniqueKeys (rest_of fields))
      ∙ ground (arith, rest) in
    get_field-spread k old (data_to_update later fields)
      (from_entries-IsObject time (normalized (rest_of fields)) (refl, tt))
    ∙ ground (arith, new)

counted_value :
    (f k : String) (n m value : ℤ) (old : Fields)
    → get_field f old ≡ some (number n)
    → get_field k old ≡ some (number m)
    → (if f == k then n +ℤ value else m) ≡ (if f == k then m +ℤ value else m)
counted_value f k n m value old h g = elim (Bool-cases (f == k)) [
  | inl same ↦
      let at : f ≡ k = (eq_iff f k).0 same in
      let equal : some (number n) ≡ some (number m) = sym h ∙ ap (λ j. get_field j old) at ∙ g in
      let values : n ≡ m = ground (arith, equal) in rw (same, values) refl
  | inr other ↦ rw (other) refl
]

module _ (client : DocumentClient) (number_add : Value → ℤ → Value) where
  open client use {Table, look_up, reachable, read, read_answer, look_up-read}

  -- After an answer the numbers of the item are the old ones, the counted one with the value added. After
  -- a failure nothing is changed.
  abbrev pub Counts : Key → String → ℤ → Fields → Table → Result Fields × Table → Type 0
  Counts key f value old t (ok item, after) =
      (stored : Fields) × (look_up key after ≡ some stored)
      × ((k : String) (m : ℤ)
          → IsData k
          → get_field k old ≡ some (number m)
          → get_field k stored ≡ some (number (if f == k then m +ℤ value else m)))
  Counts key f value old t (err e, after) = (j : Key) → look_up j after ≡ look_up j t

  abbrev with_total : PartialEntity → Fields → String → ℤ → PartialEntity
  with_total entity old f total = record entity { fields = counted old f total }

  key_eq_refl : (k : Key) → key_eq k k ≡ true
  key_eq_refl (p, e) = ground (arith, eq_refl p, eq_refl e)

  Stores-Counts :
      (entity : PartialEntity) (f : String) (n value now later : ℤ) (old : Fields) (t mid : Table)
      → ((j : Key) → look_up j mid ≡ look_up j t)
      → look_up (key_of entity) t ≡ some old
      → HasUniqueKeys old
      → get_field f old ≡ some (number n)
      → (r : Result Fields × Table)
      → Stores client (with_total entity old f (n +ℤ value)) now later mid r
      → Counts (key_of entity) f value old t r
  Stores-Counts entity f n value now later old t mid same found u h (ok item, after) (_, written) =
      let total = n +ℤ value in
      let there : look_up (key_of entity) mid ≡ some old = same (key_of entity) ∙ found in
      (
        saved (with_total entity old f total) now later (some old),
        written (key_of entity) ∙ rw (key_eq_refl (key_of entity), there) refl,
        λ k m plain g.
            saved-counted entity now later k f m total old plain u g
            ∙ ap (λ v. some (number v)) (counted_value f k n m value old h g),
      )
  Stores-Counts entity f n value now later old t mid same found u h (err e, after) (_, kept) =
      λ j. kept j ∙ same j

  abbrev rethrow : Error → Action Table (Option Fields)
  rethrow e = throw e

  -- An increment of a number of an item of the service's own table adds the value to it and leaves the
  -- other numbers, the time of the last update among them; where it fails it changes nothing.
  pub increment_lem :
      (entity : PartialEntity) (f : String) (n value now later : ℤ) (old : Fields) (t : Table)
      → look_up (key_of entity) t ≡ some old
      → HasUniqueKeys old
      → IsData f
      → get_field f old ≡ some (number n)
      → Counts
          (key_of entity)
          f
          value
          old
          t
          (increment client number_add read entity f value now later t)
  unfolding increment
  increment_lem entity f n value now later old t found u plain h =
      let k = key_of entity in
      let mid : Table = (read k t).1 in
      let same : (j : Key) → look_up j mid ≡ look_up j t = λ j. look_up-read j k t in
      elim (Bool-cases (reachable t)) [
        | inl up ↦
            let answer : (read k t).0 ≡ ok (some old) = ground (arith, read_answer k t) in
            let item : get_item_from client read k true t ≡ (ok (some (denormalized old)), mid) =
              catch-ok (read k >>= λ o. pure (shown client o)) rethrow t mid
                (some (denormalized old))
                (bind-ok (read k) (λ o. pure (shown client o)) t mid (some old)
                  (ap (λ r. (r, mid)) answer)) in
            let total : added number_add (get_field f (denormalized old)) value
                ≡ number (n +ℤ value) =
              ap (λ o. added number_add o value) (get_field-denormalized f n old plain.0 u h) in
            rw
              (
                bind-ok (get_item_from client read k true)
                    (λ o. incremented client number_add entity f value o now later) t mid
                    (some (denormalized old)) item,
                total,
              )
              (Stores-Counts entity f n value now later old t mid same found u h
                (save_item client (with_total entity old f (n +ℤ value)) now later mid)
                (save_item_lem client (with_total entity old f (n +ℤ value)) now later mid))
        | inr down ↦
            let answer : (read k t).0 ≡ err failure = ground (arith, read_answer k t) in
            let thrown : get_item_from client read k true t ≡ (err failure, mid) =
              catch-err (read k >>= λ o. pure (shown client o)) rethrow t mid failure (
                bind-err (read k) (λ o. pure (shown client o)) t mid failure
                  (ap (λ r. (r, mid)) answer)) in
            rw
              (bind-err (get_item_from client read k true)
                (λ o. incremented client number_add entity f value o now later) t mid failure
                thrown)
              same
      ]
