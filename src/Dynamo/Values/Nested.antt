-- ===== src/Dynamo/Values/Nested.antt =====
-- Arrays in arrays, which `normalizeData` and `denormalizeData` take for entries of objects.
use astro_api_gateway.Common.{◌≡◌, refl, String}
use astro_api_gateway.Dynamo.Values.{
  Value, Elements, array, object, element, no_fields, field, normalize_data,
}

-- What is stored for a field that holds an array of an array does not depend on the elements of the
-- inner array after the second.
pub normalize_data-forgets :
    (k : String) (x y : Value) (rest others zs : Elements)
    → normalize_data
        (object (field k (array (element (array (element x (element y rest))) zs)) no_fields))
      ≡ normalize_data
          (object (field k (array (element (array (element x (element y others))) zs)) no_fields))
unfolding normalize_data
normalize_data-forgets k x y rest others zs = refl
