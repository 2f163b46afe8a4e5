-- ===== src/Common/Repository.antt =====
-- A TypeORM repository, which the services use and the gateway does not implement: a collection of
-- documents by their ids, with what its driver documents of reading, writing, deleting and counting.
pub mod Every
pub mod Counting
pub mod InMemory
use astro_api_gateway.Common.{
  ℕ, ◌+◌, ◌≡◌, Bool, Option, none, some, List, [], ◌∷◌, String, ◌==◌, if◌then◌else◌, count_of,
  holds, includes,
}

pub record Repository (E : Type 0) : Type 1 where
  pub Table : Type 0
  -- `findOne(id)`
  pub find_one : String → Table → Option E
  -- `save({ id, ...entity })`: inserts, or replaces what stands under the id
  pub put : String → E → Table → Table
  -- `delete(id)`
  pub erase : String → Table → Table
  -- `count(where)`
  pub count : (E → Bool) → Table → ℕ
  -- `find(where)`, with the ids selected
  pub ids : (E → Bool) → Table → List String
  pub find_one-put :
      (j k : String) (e : E) (t : Table)
      → find_one j (put k e t) ≡ (if k == j then some e else find_one j t)
  pub find_one-erase :
      (j k : String) (t : Table) → find_one j (erase k t) ≡ (if k == j then none else find_one j t)
  pub count-put :
      (p : E → Bool) (k : String) (e : E) (t : Table)
      → count p (put k e t) + count_of (holds p (find_one k t)) ≡ count p t + count_of (p e)
  pub count-erase :
      (p : E → Bool) (k : String) (t : Table)
      → count p (erase k t) + count_of (holds p (find_one k t)) ≡ count p t
  pub includes-ids :
      (p : E → Bool) (k : String) (t : Table) → includes (ids p t) k ≡ holds p (find_one k t)

module _ {E : Type 0} (r : Repository E) where
  open r use {Table, find_one, put, erase, ids}

  -- `update(id, fields)`: nothing is written where no document has the id
  unfoldable pub update : String → (E → E) → Table → Table
  update k change t = elim (find_one k t) [ none ↦ t | some e ↦ put k (change e) t ]

  -- `delete(ids)`
  unfoldable pub erase_all : List String → Table → Table
  erase_all [] t = t
  erase_all (k ∷ ks) t = erase_all ks (erase k t)

  -- `deleteMany(where)`
  unfoldable pub erase_where : (E → Bool) → Table → Table
  erase_where p t = erase_all (ids p t) t
