-- ===== src/Bounties/Unique.antt =====
-- `arrayUniqueBy` keeps the first of the elements with a key.
use mathlib.Core.List.{append_assoc}
use astro_api_gateway.Common.{
  suc, ◌≡◌, refl, ap, inl, inr, none, List, [], ◌∷◌, ◌++◌, String, ◌==◌, eq_iff, Bool, true, false,
  not, ◌||◌, if◌then◌else◌, Bool-cases, any, find, length, length-append, arith, Option-cases,
  eq_refl,
}
use astro_api_gateway.Bounties.{find_index, is_index, unique_from, array_unique_by}

module _ {ℓ} {A : Type ℓ} where
  find_index-append :
      (p : A → Bool) (seen xs : List A) (x : A)
      → p x ≡ true
      → is_index (find_index p (seen ++ x ∷ xs)) (length seen) ≡ not (any p seen)
  find_index-append p [] xs x h = ground (arith)
  find_index-append p (y ∷ seen) xs x h = elim (Option-cases (find_index p (seen ++ x ∷ xs))) [
    | inl missing ↦ ground (arith, find_index-append p seen xs x h)
    | inr (i, found) ↦ ground (arith, find_index-append p seen xs x h)
  ]

  any-append : (p : A → Bool) (xs ys : List A) → any p (xs ++ ys) ≡ (any p xs || any p ys)
  any-append p [] ys = ground arith
  any-append p (x ∷ xs) ys = ground (arith, any-append p xs ys)

  any-find : (p : A → Bool) (xs : List A) → find p xs ≡ none → any p xs ≡ false
  any-find p [] h = refl
  any-find p (x ∷ xs) h = ground (arith, any-find p xs)

module _ {ℓ} {A : Type ℓ} (key : A → String) where
  abbrev pub has_key : String → A → Bool
  has_key k x = key x == k

  -- No two elements have the same key.
  abbrev pub IsUniqueBy : List A → Type 0
  IsUniqueBy [] = Unit
  IsUniqueBy (x ∷ xs) = (any (has_key (key x)) xs ≡ false) × IsUniqueBy xs

  -- The elements of the second list whose keys are new, where the first list was read before.
  firsts : List A → List A → List A
  firsts seen [] = []
  firsts seen (x ∷ xs) =
      let rest = firsts (seen ++ x ∷ []) xs in if any (has_key (key x)) seen then rest else x ∷ rest

  unique_from-firsts :
      (seen xs : List A) → unique_from key (seen ++ xs) (length seen) xs ≡ firsts seen xs
  unfolding unique_from firsts
  unique_from-firsts seen [] = refl
  unique_from-firsts seen (x ∷ xs) =
      let next = seen ++ x ∷ [] in
      let same : unique_from key (seen ++ x ∷ xs) (suc (length seen)) xs ≡ firsts next xs =
        let one_more : length next ≡ suc (length seen) =
          omega (arith, length-append seen (x ∷ [])) in
        rw (← append_assoc seen (x ∷ []) xs, ← one_more) (unique_from-firsts next xs) in
      rw (same) (ground (arith, find_index-append (has_key (key x)) seen xs x (eq_refl (key x))))

  find-firsts :
      (seen xs : List A) (k : String)
      → find (has_key k) (firsts seen xs)
        ≡ (if any (has_key k) seen then none else find (has_key k) xs)
  unfolding firsts
  find-firsts seen [] k = ground arith
  find-firsts seen (x ∷ xs) k =
      let rest = find-firsts (seen ++ x ∷ []) xs k in
      let read = any-append (has_key k) seen (x ∷ []) in
      elim (Bool-cases (key x == k)) [
        | inl same ↦
            let seen_too : any (has_key (key x)) seen ≡ any (has_key k) seen =
              ap (λ j. any (has_key j) seen) ((eq_iff (key x) k).0 same) in
            ground arith
        | inr other ↦ ground arith
      ]

  firsts-IsUniqueBy : (seen xs : List A) → IsUniqueBy (firsts seen xs)
  unfolding firsts
  firsts-IsUniqueBy seen [] = tt
  firsts-IsUniqueBy seen (x ∷ xs) = elim (Bool-cases (any (has_key (key x)) seen)) [
    | inl dropped ↦ rw (dropped) (firsts-IsUniqueBy (seen ++ x ∷ []) xs)
    | inr kept ↦
        let rest = find-firsts (seen ++ x ∷ []) xs (key x) in
        let read = any-append (has_key (key x)) seen (x ∷ []) in
        let gone : find (has_key (key x)) (firsts (seen ++ x ∷ []) xs) ≡ none =
          ground (arith, eq_refl (key x)) in
        rw (kept) (
          any-find (has_key (key x)) (firsts (seen ++ x ∷ []) xs) gone,
          firsts-IsUniqueBy (seen ++ x ∷ []) xs,
        )
  ]

  -- `arrayUniqueBy` leaves no two elements with the same key, and finds at each key what the array
  -- has first.
  pub array_unique_by_lem :
      (xs : List A)
      → IsUniqueBy (array_unique_by key xs)
        × ((k : String) → find (has_key k) (array_unique_by key xs) ≡ find (has_key k) xs)
  array_unique_by_lem xs =
      let same = unique_from-firsts [] xs in
      (rw (same) (firsts-IsUniqueBy [] xs), λ k. rw (same) (find-firsts [] xs k))
