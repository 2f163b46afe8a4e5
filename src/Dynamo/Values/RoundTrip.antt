-- ===== src/Dynamo/Values/RoundTrip.antt =====
-- What is read back of a stored element: `denormalizeData` after `normalizeData`.
use astro_api_gateway.Common.{
  ◌≡◌, refl, ap, ◌∙◌, inl, inr, Bool, false, ◌||◌, String, ◌==◌, eq_iff, arith, Bool-cases,
}
use astro_api_gateway.Dynamo.Values.{
  Value, Elements, Fields, undefined, null, boolean, number, text, array, object, no_elements,
  element, no_fields, field, set_field, from_entries, deep_map, map_elements, map_fields,
  is_defined, filter_fields, empty_key_placeholder, hide_key, normalizing, denormalizing,
  normalize_data, denormalize_data,
}

abbrev pub has_key : String → Fields → Bool
has_key k no_fields = false
has_key k (field j v fs) = j == k || has_key k fs

abbrev pub HasUniqueKeys : Fields → Type 0
HasUniqueKeys no_fields = Unit
HasUniqueKeys (field k v fs) = (has_key k fs ≡ false) × HasUniqueKeys fs

-- An element that is kept: neither missing nor an array.
abbrev pub IsElement : Value → Type 0
IsElement undefined = ⊥
IsElement (array xs) = ⊥
IsElement v = Unit

-- Fields have different keys, none of them the placeholder, and no array holds an array or
-- `undefined`.
abbrev mutual
  pub IsStorable : Value → Type 0
  IsStorable (array xs) = AreStorable xs
  IsStorable (object fs) = HasStorable fs
  IsStorable v = Unit

  pub AreStorable : Elements → Type 0
  AreStorable no_elements = Unit
  AreStorable (element x xs) = IsElement x × IsStorable x × AreStorable xs

  pub HasStorable : Fields → Type 0
  HasStorable no_fields = Unit
  HasStorable (field k v fs) =
      (has_key k fs ≡ false)
      × ((k == empty_key_placeholder) ≡ false)
      × IsStorable v
      × HasStorable fs

abbrev append : Fields → Fields → Fields
append no_fields gs = gs
append (field k v fs) gs = field k v (append fs gs)

append-no_fields : (fs : Fields) → append fs no_fields ≡ fs
append-no_fields no_fields = refl
append-no_fields (field k v fs) = rw (append-no_fields fs) refl

append_assoc : (es fs gs : Fields) → append (append es fs) gs ≡ append es (append fs gs)
append_assoc no_fields fs gs = refl
append_assoc (field k v es) fs gs = rw (append_assoc es fs gs) refl

has_key-append :
    (k : String) (fs gs : Fields) → has_key k (append fs gs) ≡ (has_key k fs || has_key k gs)
has_key-append k no_fields gs = refl
has_key-append k (field j v fs) gs = ground (arith, has_key-append k fs gs)

set_field-append :
    (k : String) (v : Value) (fs : Fields)
    → has_key k fs ≡ false
    → set_field k v fs ≡ append fs (field k v no_fields)
unfolding set_field
set_field-append k v no_fields h = refl
set_field-append k v (field j w fs) h = ground (arith, set_field-append k v fs)

HasUniqueKeys-middle :
    (k : String) (v : Value) (es fs : Fields)
    → HasUniqueKeys (append es (field k v fs))
    → has_key k es ≡ false
HasUniqueKeys-middle k v no_fields fs u = refl
HasUniqueKeys-middle k v (field j w es) fs u = ground (
  arith,
  HasUniqueKeys-middle k v es fs u.1,
  has_key-append j es (field k v fs),
  eq_iff j k,
  eq_iff k j,
)

from_entries-append :
    (es fs : Fields) → HasUniqueKeys (append es fs) → from_entries es fs ≡ append es fs
unfolding from_entries
from_entries-append es no_fields u = rw (append-no_fields es) refl
from_entries-append es (field k v fs) u =
    let moved : append (append es (field k v no_fields)) fs ≡ append es (field k v fs) =
      append_assoc es (field k v no_fields) fs in
    rw (set_field-append k v es (HasUniqueKeys-middle k v es fs u), ← moved)
      (from_entries-append (append es (field k v no_fields)) fs (rw moved u))

-- Entries with different keys are the fields of the object that is made of them.
pub from_entries-HasUniqueKeys : (fs : Fields) → HasUniqueKeys fs → from_entries no_fields fs ≡ fs
from_entries-HasUniqueKeys fs u = from_entries-append no_fields fs u

has_key-normalizing :
    (k : String) (fs : Fields)
    → (k == empty_key_placeholder) ≡ false
    → HasStorable fs
    → has_key (hide_key k) (map_fields normalizing fs) ≡ has_key k fs
unfolding deep_map normalizing
has_key-normalizing k no_fields h s = refl
has_key-normalizing k (field j v fs) h (apart, named, stored, more) = ground (
  arith,
  has_key-normalizing k fs h more,
  eq_iff j k,
  eq_iff j "",
  eq_iff k "",
  eq_iff j empty_key_placeholder,
  eq_iff k empty_key_placeholder,
  eq_iff (hide_key j) (hide_key k),
)

normalizing-HasUniqueKeys :
    (fs : Fields) → HasStorable fs → HasUniqueKeys (map_fields normalizing fs)
unfolding deep_map normalizing
normalizing-HasUniqueKeys no_fields s = tt
normalizing-HasUniqueKeys (field k v fs) (apart, named, stored, more) =
    (has_key-normalizing k fs named more ∙ apart, normalizing-HasUniqueKeys fs more)

HasStorable-HasUniqueKeys : (fs : Fields) → HasStorable fs → HasUniqueKeys fs
HasStorable-HasUniqueKeys no_fields s = tt
HasStorable-HasUniqueKeys (field k v fs) (apart, named, stored, more) =
    (apart, HasStorable-HasUniqueKeys fs more)

show_key-hide_key :
    (k : String) → (k == empty_key_placeholder) ≡ false → denormalizing.on_key (hide_key k) ≡ k
unfolding denormalizing
show_key-hide_key k h = elim (Bool-cases (k == "")) [
  | inl empty ↦ rw ((eq_iff k "").0 empty) refl
  | inr other ↦ rw (other, h) refl
]

mutual
  unfolding deep_map normalizing denormalizing

  deep_map-restores :
      (v : Value) → IsStorable v → deep_map denormalizing (deep_map normalizing v) ≡ v
  deep_map-restores undefined s = refl
  deep_map-restores null s = refl
  deep_map-restores (boolean b) s = refl
  deep_map-restores (number n) s = refl
  deep_map-restores (text t) s = refl
  deep_map-restores (array xs) s = ap array (map_elements-restores xs s)
  deep_map-restores (object fs) s =
      rw
        (
          from_entries-HasUniqueKeys (map_fields normalizing fs) (normalizing-HasUniqueKeys fs s),
          map_fields-restores fs s,
          from_entries-HasUniqueKeys fs (HasStorable-HasUniqueKeys fs s),
        )
        refl

  map_elements-restores :
      (xs : Elements)
      → AreStorable xs
      → map_elements denormalizing (map_elements normalizing xs) ≡ xs
  map_elements-restores no_elements s = refl
  map_elements-restores (element undefined xs) (e, s, more) = absurd e
  map_elements-restores (element null xs) (e, s, more) = rw (map_elements-restores xs more) refl
  map_elements-restores (element (boolean b) xs) (e, s, more) =
      rw (map_elements-restores xs more) refl
  map_elements-restores (element (number n) xs) (e, s, more) =
      rw (map_elements-restores xs more) refl
  map_elements-restores (element (text t) xs) (e, s, more) = rw (map_elements-restores xs more) refl
  map_elements-restores (element (array ys) xs) (e, s, more) = absurd e
  map_elements-restores (element (object fs) xs) (e, s, more) =
      rw (map_elements-restores xs more) (ap (λ v. element v xs) (deep_map-restores (object fs) s))

  map_fields-restores :
      (fs : Fields) → HasStorable fs → map_fields denormalizing (map_fields normalizing fs) ≡ fs
  map_fields-restores no_fields s = refl
  map_fields-restores (field k v fs) (apart, named, stored, more) =
      rw (show_key-hide_key k named, deep_map-restores v stored, map_fields-restores fs more) refl

is_defined-deep_map : (v : Value) → is_defined (deep_map normalizing v) ≡ is_defined v
unfolding deep_map
is_defined-deep_map undefined = refl
is_defined-deep_map null = refl
is_defined-deep_map (boolean b) = refl
is_defined-deep_map (number n) = refl
is_defined-deep_map (text t) = refl
is_defined-deep_map (array xs) = refl
is_defined-deep_map (object fs) = refl

abbrev pub defined_fields : Fields → Fields
defined_fields fs = filter_fields is_defined fs

filter_fields-map_fields :
    (fs : Fields)
    → defined_fields (map_fields normalizing fs) ≡ map_fields normalizing (defined_fields fs)
unfolding deep_map filter_fields
filter_fields-map_fields no_fields = refl
filter_fields-map_fields (field k v fs) =
    ground (arith, is_defined-deep_map v, filter_fields-map_fields fs)

pub has_key-filter_fields :
    (k : String) (fs : Fields) → has_key k fs ≡ false → has_key k (defined_fields fs) ≡ false
unfolding filter_fields
has_key-filter_fields k no_fields h = refl
has_key-filter_fields k (field j v fs) h = ground (arith, has_key-filter_fields k fs)

filter_fields-HasStorable : (fs : Fields) → HasStorable fs → HasStorable (defined_fields fs)
unfolding filter_fields
filter_fields-HasStorable no_fields s = tt
filter_fields-HasStorable (field k v fs) (apart, named, stored, more) =
    elim (Bool-cases (is_defined v)) [
      | inl here ↦
          rw (here)
            (has_key-filter_fields k fs apart, named, stored, filter_fields-HasStorable fs more)
      | inr missing ↦ rw (missing) (filter_fields-HasStorable fs more)
    ]

-- An object that is normalized and denormalized is the object without its undefined fields, where
-- every object in it has different keys, none of them the placeholder, and no array in it holds an
-- array or an undefined value.
pub denormalize_data-normalize_data :
    (fs : Fields)
    → HasStorable fs
    → denormalize_data (normalize_data (object fs)) ≡ object (defined_fields fs)
unfolding denormalize_data normalize_data
denormalize_data-normalize_data fs s =
    let kept = filter_fields-HasStorable fs s in
    let mapped = map_fields normalizing (defined_fields fs) in
    rw
      (
        from_entries-HasUniqueKeys (map_fields normalizing fs) (normalizing-HasUniqueKeys fs s),
        filter_fields-map_fields fs,
        from_entries-HasUniqueKeys mapped (normalizing-HasUniqueKeys (defined_fields fs) kept),
        map_fields-restores (defined_fields fs) kept,
        from_entries-HasUniqueKeys (defined_fields fs)
            (HasStorable-HasUniqueKeys (defined_fields fs) kept),
      )
      refl
