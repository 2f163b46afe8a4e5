-- ===== src/Common/Repository/InMemory.antt =====
-- A repository in memory: a list of documents, no two of them with the same id.
use astro_api_gateway.Common.{
  ℕ, ◌+◌, ◌≡◌, refl, inl, inr, Bool, false, ◌||◌, Option, none, some, List, [], ◌∷◌, String, ◌==◌,
  eq_iff, if◌then◌else◌, count_of, holds, includes, Bool-cases, arith,
}
use astro_api_gateway.Common.Repository.{Repository}

module _ {E : Type 0} where
  abbrev look_up : String → List (String × E) → Option E
  look_up k [] = none
  look_up k ((j, e) ∷ t) = if j == k then some e else look_up k t

  abbrev insert : String → E → List (String × E) → List (String × E)
  insert k e [] = (k, e) ∷ []
  insert k e ((j, f) ∷ t) = if j == k then (j, e) ∷ t else (j, f) ∷ insert k e t

  abbrev remove : String → List (String × E) → List (String × E)
  remove k [] = []
  remove k ((j, f) ∷ t) = if j == k then t else (j, f) ∷ remove k t

  abbrev number : (E → Bool) → List (String × E) → ℕ
  number p [] = 0
  number p ((j, e) ∷ t) = count_of (p e) + number p t

  abbrev keys : (E → Bool) → List (String × E) → List String
  keys p [] = []
  keys p ((j, e) ∷ t) = if p e then j ∷ keys p t else keys p t

  abbrev has : String → List (String × E) → Bool
  has k [] = false
  has k ((j, e) ∷ t) = j == k || has k t

  abbrev IsKeyed : List (String × E) → Type 0
  IsKeyed [] = Unit
  IsKeyed ((j, e) ∷ t) = (has j t ≡ false) × IsKeyed t

  has-insert :
      (j k : String) (e : E) (t : List (String × E)) → has j (insert k e t) ≡ (k == j || has j t)
  has-insert j k e [] = ground arith
  has-insert j k e ((i, f) ∷ t) =
      ground (arith, has-insert j k e t, eq_iff i k, eq_iff i j, eq_iff k j)

  has-remove : (j k : String) (t : List (String × E)) → has j t ≡ false → has j (remove k t) ≡ false
  has-remove j k [] h = refl
  has-remove j k ((i, f) ∷ t) h = ground (arith, has-remove j k t)

  pub insert-IsKeyed :
      (k : String) (e : E) (t : List (String × E)) → IsKeyed t → IsKeyed (insert k e t)
  insert-IsKeyed k e [] h = (refl, tt)
  insert-IsKeyed k e ((i, f) ∷ t) (alone, keyed) = elim (Bool-cases (i == k)) [
    | inl same ↦ rw (same) (alone, keyed)
    | inr other ↦
        rw (other)
          (ground (arith, has-insert i k e t, eq_iff i k, eq_iff k i), insert-IsKeyed k e t keyed)
  ]

  pub remove-IsKeyed : (k : String) (t : List (String × E)) → IsKeyed t → IsKeyed (remove k t)
  remove-IsKeyed k [] h = tt
  remove-IsKeyed k ((i, f) ∷ t) (alone, keyed) = elim (Bool-cases (i == k)) [
    | inl same ↦ rw (same) keyed
    | inr other ↦ rw (other) (has-remove i k t alone, remove-IsKeyed k t keyed)
  ]

  pub look_up-insert :
      (j k : String) (e : E) (t : List (String × E))
      → look_up j (insert k e t) ≡ (if k == j then some e else look_up j t)
  look_up-insert j k e [] = refl
  look_up-insert j k e ((i, f) ∷ t) =
      ground (arith, look_up-insert j k e t, eq_iff i k, eq_iff i j, eq_iff k j)

  look_up-none : (k : String) (t : List (String × E)) → has k t ≡ false → look_up k t ≡ none
  look_up-none k [] h = refl
  look_up-none k ((i, f) ∷ t) h = ground (arith, look_up-none k t)

  pub look_up-remove :
      (j k : String) (t : List (String × E))
      → IsKeyed t
      → look_up j (remove k t) ≡ (if k == j then none else look_up j t)
  look_up-remove j k [] h = ground arith
  look_up-remove j k ((i, f) ∷ t) (alone, keyed) = ground (
    arith,
    look_up-remove j k t keyed,
    look_up-none i t alone,
    look_up-none j t,
    eq_iff i k,
    eq_iff i j,
    eq_iff k j,
  )

  pub number-insert :
      (p : E → Bool) (k : String) (e : E) (t : List (String × E))
      → number p (insert k e t) + count_of (holds p (look_up k t)) ≡ number p t + count_of (p e)
  number-insert p k e [] = ground arith
  number-insert p k e ((i, f) ∷ t) = elim (Bool-cases (i == k)) [
    | inl same ↦ rw (same) (omega arith)
    | inr other ↦ rw (other) (omega (arith, number-insert p k e t))
  ]

  pub number-remove :
      (p : E → Bool) (k : String) (t : List (String × E))
      → number p (remove k t) + count_of (holds p (look_up k t)) ≡ number p t
  number-remove p k [] = ground arith
  number-remove p k ((i, f) ∷ t) = elim (Bool-cases (i == k)) [
    | inl same ↦ rw (same) (omega arith)
    | inr other ↦ rw (other) (omega (arith, number-remove p k t))
  ]

  pub includes-keys :
      (p : E → Bool) (k : String) (t : List (String × E))
      → IsKeyed t
      → includes (keys p t) k ≡ holds p (look_up k t)
  includes-keys p k [] h = refl
  includes-keys p k ((i, e) ∷ t) (alone, keyed) =
      ground
        (arith, includes-keys p k t keyed, look_up-none i t alone, look_up-none k t, eq_iff i k)

abbrev pub in_memory : (E : Type 0) → Repository E
in_memory E = record {
  Table = (t : List (String × E)) × IsKeyed t;
  find_one = λ k t. look_up k t.0;
  put = λ k e t. (insert k e t.0, insert-IsKeyed k e t.0 t.1);
  erase = λ k t. (remove k t.0, remove-IsKeyed k t.0 t.1);
  count = λ p t. number p t.0;
  ids = λ p t. keys p t.0;
  find_one-put = λ j k e t. look_up-insert j k e t.0;
  find_one-erase = λ j k t. look_up-remove j k t.0 t.1;
  count-put = λ p k e t. number-insert p k e t.0;
  count-erase = λ p k t. number-remove p k t.0;
  includes-ids = λ p k t. includes-keys p k t.0 t.1;
}
