-- ===== src/Dynamo/Values.antt =====
-- `normalizeData` and `denormalizeData` of libs/dynamodb/src/dynamodb.service.ts, with `deepMap` and
-- `deepFilter` of libs/utils/src/index.ts. The callbacks of `deepMap` are called on the entries of
-- objects and on the elements of arrays; a callback here says what it does of each.
pub mod RoundTrip
pub mod Nested
use astro_api_gateway.Common.{ℤ, Bool, true, false, not, String, ◌==◌, if◌then◌else◌}

-- What `JSON.stringify` keeps, and `undefined`. A number is an integer. The fields of an object are in
-- the order of `Object.entries`.
mutual
  pub data Fields : Type 0 where
    no_fields : Fields
    field : String → Value → Fields → Fields

  pub data Elements : Type 0 where
    no_elements : Elements
    element : Value → Elements → Elements

  pub data Value : Type 0 where
    object : Fields → Value
    array : Elements → Value
    text : String → Value
    number : ℤ → Value
    boolean : Bool → Value
    undefined null : Value

pub record Callback : Type 0 where
  -- the new key of `[key, value]`; the value stays
  pub on_key : String → String
  pub on_element : Value → Value

-- `object[key] = value`
unfoldable pub set_field : String → Value → Fields → Fields
set_field k v no_fields = field k v no_fields
set_field k v (field j w fs) = if j == k then field j v fs else field j w (set_field k v fs)

-- `Object.fromEntries`, onto the fields that were set before
unfoldable pub from_entries : Fields → Fields → Fields
unfolding set_field
from_entries before no_fields = before
from_entries before (field k v fs) = from_entries (set_field k v before) fs

unfoldable mutual
  unfolding from_entries

  pub deep_map : Callback → Value → Value
  deep_map f (array xs) = array (map_elements f xs)
  deep_map f (object fs) = object (from_entries no_fields (map_fields f fs))
  deep_map f v = v

  pub map_elements : Callback → Elements → Elements
  map_elements f no_elements = no_elements
  map_elements f (element x xs) = element (f.on_element (deep_map f x)) (map_elements f xs)

  pub map_fields : Callback → Fields → Fields
  map_fields f no_fields = no_fields
  map_fields f (field k v fs) = field (f.on_key k) (deep_map f v) (map_fields f fs)

abbrev pub is_defined : Value → Bool
is_defined undefined = false
is_defined v = true

unfoldable pub filter_fields : (Value → Bool) → Fields → Fields
filter_fields p no_fields = no_fields
filter_fields p (field k v fs) = if p v then field k v (filter_fields p fs) else filter_fields p fs

-- The elements of an array that fail the test become `false`.
unfoldable mutual
  unfolding filter_fields from_entries

  pub deep_filter : (Value → Bool) → Value → Value
  deep_filter p (array xs) = array (filter_elements p xs)
  deep_filter p (object fs) = object (from_entries no_fields (filter_fields p fs))
  deep_filter p v = v

  pub filter_elements : (Value → Bool) → Elements → Elements
  filter_elements p no_elements = no_elements
  filter_elements p (element x xs) =
      element (if p x then deep_filter p x else boolean false) (filter_elements p xs)

abbrev pub empty_key_placeholder : String
empty_key_placeholder = "__EMPTY_KEY__"

abbrev pub hide_key : String → String
hide_key k = if not (k == "") then k else empty_key_placeholder

abbrev pub show_key : String → String
show_key k = if not (k == empty_key_placeholder) then k else ""

-- The first element of an array that is taken for an entry.
abbrev pub in_text : (String → String) → Value → Value
in_text f (text k) = text (f k)
in_text f v = v

-- `const [key, val] = value`, and the entry made of them
abbrev pub as_entry : (String → String) → Elements → Value
as_entry f no_elements = array (element undefined (element undefined no_elements))
as_entry f (element x no_elements) = array (element (in_text f x) (element undefined no_elements))
as_entry f (element x (element y xs)) = array (element (in_text f x) (element y no_elements))

abbrev pub normalize_element : Value → Value
normalize_element (array xs) = as_entry hide_key xs
normalize_element undefined = null
normalize_element v = v

abbrev pub denormalize_element : Value → Value
denormalize_element (array xs) = as_entry show_key xs
denormalize_element v = v

unfoldable pub normalizing : Callback
normalizing = record { on_key = hide_key; on_element = normalize_element }

unfoldable pub denormalizing : Callback
denormalizing = record { on_key = show_key; on_element = denormalize_element }

unfoldable pub normalize_data : Value → Value
unfolding deep_map deep_filter normalizing
normalize_data v = deep_filter is_defined (deep_map normalizing v)

unfoldable pub denormalize_data : Value → Value
unfolding deep_map denormalizing
denormalize_data v = deep_map denormalizing v
