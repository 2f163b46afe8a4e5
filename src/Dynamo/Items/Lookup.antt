-- ===== src/Dynamo/Items/Lookup.antt =====
-- Reading one field of an object that was spread, normalized or denormalized.
use astro_api_gateway.Common.{
  ◌≡◌, refl, ap, ℤ, ◌∙◌, inl, inr, true, false, ◌||◌, Option, none, some, String, ◌==◌, eq_iff,
  arith, if◌then◌else◌, Bool-cases,
}
use astro_api_gateway.Dynamo.Values.{
  Value, Fields, Callback, number, no_fields, field, set_field, from_entries, deep_map, map_fields,
  is_defined, filter_fields, empty_key_placeholder, normalizing, denormalizing, normalize_data,
  denormalize_data,
}
use astro_api_gateway.Dynamo.Values.RoundTrip.{
  has_key, HasUniqueKeys, from_entries-HasUniqueKeys, has_key-filter_fields, defined_fields,
}
use astro_api_gateway.Dynamo.Items.{
  get_field, spread, normalized, denormalized, rest_of, is_key_field,
}

-- The last value of a field, or the one given.
abbrev pub last_field : String → Option Value → Fields → Option Value
last_field k before no_fields = before
last_field k before (field j v fs) = last_field k (if j == k then some v else before) fs

get_field-set_field :
    (k j : String) (v : Value) (fs : Fields)
    → get_field k (set_field j v fs) ≡ (if j == k then some v else get_field k fs)
unfolding set_field
get_field-set_field k j v no_fields = refl
get_field-set_field k j v (field i w fs) =
    ground (arith, get_field-set_field k j v fs, eq_iff i j, eq_iff i k, eq_iff j k)

pub get_field-from_entries :
    (k : String) (before fs : Fields)
    → get_field k (from_entries before fs) ≡ last_field k (get_field k before) fs
unfolding from_entries
get_field-from_entries k before no_fields = refl
get_field-from_entries k before (field j v fs) =
    get_field-from_entries k (set_field j v before) fs
    ∙ ap (λ o. last_field k o fs) (get_field-set_field k j v before)

has_key-set_field :
    (k j : String) (v : Value) (fs : Fields)
    → has_key k (set_field j v fs) ≡ (j == k || has_key k fs)
unfolding set_field
has_key-set_field k j v no_fields = refl
has_key-set_field k j v (field i w fs) =
    ground (arith, has_key-set_field k j v fs, eq_iff i j, eq_iff i k, eq_iff j k)

set_field-HasUniqueKeys :
    (k : String) (v : Value) (fs : Fields) → HasUniqueKeys fs → HasUniqueKeys (set_field k v fs)
unfolding set_field
set_field-HasUniqueKeys k v no_fields u = (refl, tt)
set_field-HasUniqueKeys k v (field j w fs) u =
    ground
      (arith, set_field-HasUniqueKeys k v fs, has_key-set_field j k v fs, eq_iff j k, eq_iff k j)

-- An object that is made of entries has each key once.
pub from_entries-IsObject :
    (before fs : Fields) → HasUniqueKeys before → HasUniqueKeys (from_entries before fs)
unfolding from_entries
from_entries-IsObject before no_fields u = u
from_entries-IsObject before (field k v fs) u =
    from_entries-IsObject (set_field k v before) fs (set_field-HasUniqueKeys k v before u)

abbrev or_first : Option Value → Option Value → Option Value
or_first none o = o
or_first (some v) o = some v

get_field-has_key : (k : String) (fs : Fields) → has_key k fs ≡ false → get_field k fs ≡ none
get_field-has_key k no_fields h = refl
get_field-has_key k (field j v fs) h = ground (arith, get_field-has_key k fs)

last_field-get_field :
    (k : String) (before : Option Value) (fs : Fields)
    → HasUniqueKeys fs
    → last_field k before fs ≡ or_first (get_field k fs) before
last_field-get_field k before no_fields u = refl
last_field-get_field k before (field j v fs) u = ground (
  arith,
  last_field-get_field k (if j == k then some v else before) fs u.1,
  get_field-has_key k fs,
  eq_iff j k,
)

-- What `{ ...a, ...b }` has of a field.
pub get_field-spread :
    (k : String) (a b : Fields)
    → HasUniqueKeys b
    → get_field k (spread a b) ≡ or_first (get_field k b) (get_field k a)
unfolding spread
get_field-spread k a b u = get_field-from_entries k a b ∙ last_field-get_field k (get_field k a) b u

-- A key that neither `normalizeData` nor `denormalizeData` renames, nor gives to another field.
abbrev pub IsPlainKey : String → Type 0
IsPlainKey k = ((k == "") ≡ false) × ((k == empty_key_placeholder) ≡ false)

abbrev mapped : Callback → Option Value → Option Value
mapped f none = none
mapped f (some v) = some (deep_map f v)

last_field-map_fields :
    (f : Callback) (k : String)
    → ((j : String) → (f.on_key j == k) ≡ (j == k))
    → (before : Option Value) (fs : Fields)
    → last_field k (mapped f before) (map_fields f fs) ≡ mapped f (last_field k before fs)
unfolding deep_map
last_field-map_fields f k keeps before no_fields = refl
last_field-map_fields f k keeps before (field j v fs) = elim (Bool-cases (j == k)) [
  | inl same ↦ rw (keeps j, same) (last_field-map_fields f k keeps (some v) fs)
  | inr other ↦ rw (keeps j, other) (last_field-map_fields f k keeps before fs)
]

normalizing-plain :
    (k : String) → IsPlainKey k → (j : String) → (normalizing.on_key j == k) ≡ (j == k)
unfolding normalizing
normalizing-plain k (full, named) j = ground (
  arith,
  eq_iff j "",
  eq_iff j k,
  eq_iff k "",
  eq_iff empty_key_placeholder k,
  eq_iff k empty_key_placeholder,
)

denormalizing-plain :
    (k : String) → IsPlainKey k → (j : String) → (denormalizing.on_key j == k) ≡ (j == k)
unfolding denormalizing
denormalizing-plain k (full, named) j = ground (
  arith,
  eq_iff j empty_key_placeholder,
  eq_iff j k,
  eq_iff k "",
  eq_iff "" k,
  eq_iff k empty_key_placeholder,
)

-- A field of the object that `deepMap` makes of one.
get_field-deep_map :
    (f : Callback) (k : String) (fs : Fields)
    → ((j : String) → (f.on_key j == k) ≡ (j == k))
    → HasUniqueKeys fs
    → get_field k (from_entries no_fields (map_fields f fs)) ≡ mapped f (get_field k fs)
get_field-deep_map f k fs keeps u =
    get_field-from_entries k no_fields (map_fields f fs)
    ∙ last_field-map_fields f k keeps none fs
    ∙ ap (mapped f) (last_field-get_field k none fs u ∙ plain (get_field k fs))
  where
    plain : (o : Option Value) → or_first o none ≡ o
    plain none = refl
    plain (some v) = refl

get_field-filter_fields :
    (k : String) (v : Value) (fs : Fields)
    → get_field k fs ≡ some v
    → is_defined v ≡ true
    → get_field k (defined_fields fs) ≡ some v
unfolding filter_fields
get_field-filter_fields k v no_fields h d = h
get_field-filter_fields k v (field j w fs) h d = ground (arith, get_field-filter_fields k v fs)

defined_fields-HasUniqueKeys : (fs : Fields) → HasUniqueKeys fs → HasUniqueKeys (defined_fields fs)
unfolding filter_fields
defined_fields-HasUniqueKeys no_fields u = tt
defined_fields-HasUniqueKeys (field k v fs) u =
    ground (arith, defined_fields-HasUniqueKeys fs, has_key-filter_fields k fs)

pub normalized-HasUniqueKeys : (fs : Fields) → HasUniqueKeys (normalized fs)
unfolding normalized normalize_data
normalized-HasUniqueKeys fs =
    from_entries-IsObject no_fields
      (defined_fields (from_entries no_fields (map_fields normalizing fs))) tt

pub denormalized-HasUniqueKeys : (fs : Fields) → HasUniqueKeys (denormalized fs)
unfolding denormalized denormalize_data
denormalized-HasUniqueKeys fs = from_entries-IsObject no_fields (map_fields denormalizing fs) tt

-- Numbers are stored and read back as they are.
pub get_field-normalized :
    (k : String) (n : ℤ) (fs : Fields)
    → IsPlainKey k
    → HasUniqueKeys fs
    → get_field k fs ≡ some (number n)
    → get_field k (normalized fs) ≡ some (number n)
unfolding normalized normalize_data deep_map
get_field-normalized k n fs plain u h =
    let made = from_entries no_fields (map_fields normalizing fs) in
    let unique : HasUniqueKeys made =
      from_entries-IsObject no_fields (map_fields normalizing fs) tt in
    let same : get_field k made ≡ some (number n) =
      get_field-deep_map normalizing k fs (normalizing-plain k plain) u
      ∙ ap (mapped normalizing) h in
    ap (get_field k)
      (from_entries-HasUniqueKeys (defined_fields made) (defined_fields-HasUniqueKeys made unique))
    ∙ get_field-filter_fields k (number n) made same refl

pub get_field-denormalized :
    (k : String) (n : ℤ) (fs : Fields)
    → IsPlainKey k
    → HasUniqueKeys fs
    → get_field k fs ≡ some (number n)
    → get_field k (denormalized fs) ≡ some (number n)
unfolding denormalized denormalize_data deep_map
get_field-denormalized k n fs plain u h =
    get_field-deep_map denormalizing k fs (denormalizing-plain k plain) u
    ∙ ap (mapped denormalizing) h

-- `rest` has the fields that do not make the key.
pub get_field-rest_of :
    (k : String) (fs : Fields) → is_key_field k ≡ false → get_field k (rest_of fs) ≡ get_field k fs
unfolding rest_of
get_field-rest_of k no_fields h = refl
get_field-rest_of k (field j v fs) h = ground (arith, get_field-rest_of k fs h, eq_iff j k)

has_key-rest_of : (k : String) (fs : Fields) → has_key k fs ≡ false → has_key k (rest_of fs) ≡ false
unfolding rest_of
has_key-rest_of k no_fields h = refl
has_key-rest_of k (field j v fs) h = ground (arith, has_key-rest_of k fs)

pub rest_of-HasUniqueKeys : (fs : Fields) → HasUniqueKeys fs → HasUniqueKeys (rest_of fs)
unfolding rest_of
rest_of-HasUniqueKeys no_fields u = tt
rest_of-HasUniqueKeys (field k v fs) u =
    ground (arith, rest_of-HasUniqueKeys fs, has_key-rest_of k fs)
