-- ===== src/Common/Repository/Every.antt =====
-- Properties of every document of a repository, under the writes of the services.
use astro_api_gateway.Common.{
  ◌≡◌, refl, inl, inr, none, some, List, [], ◌∷◌, String, ◌==◌, arith, if◌then◌else◌, includes,
  eq_iff, Bool-cases, Option-cases,
}
use astro_api_gateway.Common.Repository.{Repository, update, erase_all}

module _ {E : Type 0} (r : Repository E) where
  open r use {Table, find_one, put, erase, find_one-put, find_one-erase}

  -- What `update` leaves under each id.
  pub find_one-update :
      (j k : String) (change : E → E) (t : Table)
      → find_one j (update r k change t) ≡ (
          if k == j
          then elim (find_one j t) [ none ↦ none | some e ↦ some (change e) ]
          else find_one j t)
  unfolding update
  find_one-update j k change t = elim (Option-cases (find_one k t)) [
    | inl missing ↦ ground (arith, eq_iff k j)
    | inr (e, found) ↦ ground (arith, eq_iff k j, find_one-put j k (change e) t)
  ]

  pub find_one-erase_all :
      (j : String) (ks : List String) (t : Table)
      → find_one j (erase_all r ks t) ≡ (if includes ks j then none else find_one j t)
  unfolding erase_all
  find_one-erase_all j [] t = refl
  find_one-erase_all j (k ∷ ks) t =
      ground (arith, find_one-erase_all j ks (erase k t), find_one-erase j k t)

module _ {E : Type 0} (r : Repository E) (P : String → E → Type 0) where
  open r use {Table, find_one, put, erase, find_one-put, find_one-erase}

  abbrev pub Every : Table → Type 0
  Every t = (k : String) (e : E) → find_one k t ≡ some e → P k e

  pub put-Every : (k : String) (e : E) (t : Table) → P k e → Every t → Every (put k e t)
  put-Every k e t p h j d found = elim (Bool-cases (k == j)) [
    | inl same ↦
        let at : k ≡ j = (eq_iff k j).0 same in
        let stored : e ≡ d = ground (arith, find_one-put j k e t) in rw (← at, ← stored) p
    | inr other ↦ h j d (ground (arith, find_one-put j k e t))
  ]

  pub update-Every :
      (k : String) (change : E → E) (t : Table)
      → ((e : E) → find_one k t ≡ some e → P k e → P k (change e))
      → Every t
      → Every (update r k change t)
  update-Every k change t keep h j d found = elim (Bool-cases (k == j)) [
    | inl same ↦
        let at : k ≡ j = (eq_iff k j).0 same in
        elim (Option-cases (find_one k t)) [
          | inl missing ↦ absurd (ground (arith, find_one-update r j k change t))
          | inr (e, old) ↦
              let stored : change e ≡ d = ground (arith, find_one-update r j k change t) in
              rw (← at, ← stored) (keep e old (h k e old))
        ]
    | inr other ↦ h j d (ground (arith, find_one-update r j k change t))
  ]

  pub erase_all-Every : (ks : List String) (t : Table) → Every t → Every (erase_all r ks t)
  erase_all-Every ks t h j d found = h j d (ground (arith, find_one-erase_all r j ks t))
