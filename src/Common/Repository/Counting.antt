-- ===== src/Common/Repository/Counting.antt =====
-- How the count of the documents with a property changes under the writes of the services.
use astro_api_gateway.Common.{
  ◌+◌, ◌≡◌, refl, ◌∙◌, Bool, true, false, none, some, inl, inr, List, [], ◌∷◌, String, arith,
  count_of, holds, includes, eq_refl, Option-cases,
}
use astro_api_gateway.Common.Repository.{Repository, update, erase_all}

module _ {E : Type 0} (r : Repository E) (p : E → Bool) where
  open r use {
    Table, find_one, put, erase, count, find_one-put, find_one-erase, count-put, count-erase,
  }

  pub count-put_new :
      (k : String) (e : E) (t : Table)
      → find_one k t ≡ none
      → count p (put k e t) ≡ count p t + count_of (p e)
  count-put_new k e t new = omega (arith, rw new at (count-put p k e t))

  -- A document that keeps the property, or its lack, leaves the count.
  pub count-put_same :
      (k : String) (e old : E) (t : Table)
      → find_one k t ≡ some old
      → p e ≡ p old
      → count p (put k e t) ≡ count p t
  count-put_same k e old t found same = omega (arith, rw (found, ← same) at (count-put p k e t))

  pub count-update_same :
      (k : String) (change : E → E) (t : Table)
      → ((e : E) → p (change e) ≡ p e)
      → count p (update r k change t) ≡ count p t
  unfolding update
  count-update_same k change t same = elim (Option-cases (find_one k t)) [
    | inl missing ↦ ground arith
    | inr (e, found) ↦ ground (arith, count-put_same k (change e) e t found (same e))
  ]

  pub count-erase_all :
      (ks : List String) (t : Table)
      → ((k : String) → includes ks k ≡ true → holds p (find_one k t) ≡ false)
      → count p (erase_all r ks t) ≡ count p t
  unfolding erase_all
  count-erase_all [] t h = refl
  count-erase_all (k ∷ ks) t h =
      count-erase_all ks (erase k t) (λ j i. ground (arith, h j, find_one-erase j k t))
      ∙ omega (arith, rw (h k (ground (arith, eq_refl k))) at (count-erase p k t))
