-- ===== src/Cache/Chunks.antt =====
-- The chunks that `getChunks` makes.
use astro_api_gateway.Common.{
  ℕ, zero, suc, ◌+◌, ◌≤◌, ◌<◌, ◌≡◌, refl, ap, List, [], ◌∷◌, ◌++◌, drop, length, ltb, arith,
  Bool-cases, All, length-drop, length-take, take-append-drop, inl, inr,
}
use astro_api_gateway.Cache.{chunks_from, get_chunks}

module _ {ℓ} {A : Type ℓ} where
  abbrev pub concat : List (List A) → List A
  concat [] = []
  concat (xs ∷ xss) = xs ++ concat xss

  pub drop-drop : (n m k : ℕ) (xs : List A) → k ≡ m + n → drop n (drop m xs) ≡ drop k xs
  drop-drop n zero k xs e = ap (λ j. drop j xs) (omega arith)
  drop-drop n (suc m) zero xs e = absurd (omega arith)
  drop-drop zero (suc m) (suc k) [] e = refl
  drop-drop (suc n) (suc m) (suc k) [] e = refl
  drop-drop n (suc m) (suc k) (x ∷ xs) e = drop-drop n m k xs (omega arith)

  pub drop_all : (n : ℕ) (xs : List A) → length xs ≤ n → drop n xs ≡ []
  drop_all zero [] h = refl
  drop_all zero (x ∷ xs) h = absurd (omega arith)
  drop_all (suc n) [] h = refl
  drop_all (suc n) (x ∷ xs) h = drop_all n xs (omega arith)

  concat-chunks_from :
      (fuel size i : ℕ) (xs : List A)
      → 0 < size
      → length xs ≤ i + fuel
      → concat (chunks_from fuel size i xs) ≡ drop i xs
  unfolding chunks_from
  concat-chunks_from zero size i xs h enough = rw (drop_all i xs (omega arith)) refl
  concat-chunks_from (suc fuel) size i xs h enough = elim (Bool-cases (ltb i (length xs))) [
    | inl more ↦
        rw
          (
            more,
            concat-chunks_from fuel size (i + size) xs h (omega arith),
            ← drop-drop size i (i + size) xs refl,
          )
          (take-append-drop size (drop i xs))
    | inr done ↦ rw (done, drop_all i xs (ground arith)) refl
  ]

  -- A chunk has from 1 to `size` elements.
  abbrev pub IsChunk : ℕ → List A → Type 0
  IsChunk size xs = (0 < length xs) × (length xs ≤ size)

  chunks_from-IsChunk :
      (fuel size i : ℕ) (xs : List A) → 0 < size → All (IsChunk size) (chunks_from fuel size i xs)
  unfolding chunks_from
  chunks_from-IsChunk zero size i xs h = tt
  chunks_from-IsChunk (suc fuel) size i xs h = elim (Bool-cases (ltb i (length xs))) [
    | inl more ↦ rw (more) (
      (
        ground (arith, length-take size (drop i xs), length-drop i xs),
        ground (arith, length-take size (drop i xs), length-drop i xs),
      ),
      chunks_from-IsChunk fuel size (i + size) xs h,
    )
    | inr done ↦ rw (done) tt
  ]

  -- The chunks of a positive size, in their order, make up the array, and none is empty or larger
  -- than the size.
  pub get_chunks_lem :
      (xs : List A) (size : ℕ)
      → 0 < size
      → (concat (get_chunks xs size) ≡ xs) × All (IsChunk size) (get_chunks xs size)
  get_chunks_lem xs size h = (
    concat-chunks_from (length xs) size 0 xs h (omega arith),
    chunks_from-IsChunk (length xs) size 0 xs h,
  )
