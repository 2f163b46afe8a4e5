-- ===== src/Dynamo/Items/Others.antt =====
-- `increment` of an item of another table than the service's own.
use astro_api_gateway.Common.{
  ◌≡◌, refl, inl, inr, ℤ, Bool, true, Option, none, some, String, Result-cases, Error, not_found,
  forbidden, bad_request, conditional_check_failed, failure, Action, pure, throw, catch, ◌>>=◌,
  arith,
}
use astro_api_gateway.Dynamo.Values.{Value, Fields, no_fields, field}
use astro_api_gateway.Dynamo.Items.{
  Key, spread, DocumentClient, PartialEntity, key_of, denormalized, data_to_put, data_to_update,
  get_field, added, put_item, update_item, recover, save_item, get_item_from, increment,
  incremented, shown,
}

-- Another table than the service's own, which the calls on that one leave as it is.
pub record OtherTable (client : DocumentClient) : Type 0 where
  pub find_there : Key → client.Table → Option Fields
  pub read_there : Key → Action client.Table (Option Fields)
  pub find-read : (j k : Key) (t : client.Table) → find_there j (read_there k t).1 ≡ find_there j t
  pub find-put :
      (j : Key) (new : Bool) (k : Key) (item : Fields) (t : client.Table)
      → find_there j (client.put new k item t).1 ≡ find_there j t
  pub find-update :
      (j : Key) (old : Bool) (k : Key) (item : Fields) (t : client.Table)
      → find_there j (client.update old k item t).1 ≡ find_there j t

module _ (client : DocumentClient) (other : OtherTable client)
    (number_add : Value → ℤ → Value) where
  open client use {Table, put, update}
  open other use {find_there, read_there, find-read, find-put, find-update}

  abbrev Leaves : {A : Type 0} → Action Table A → Type 0
  Leaves m = (t : Table) (j : Key) → find_there j (m t).1 ≡ find_there j t

  Leaves->>= :
      {A B : Type 0} (m : Action Table A) (f : A → Action Table B)
      → Leaves m
      → ((a : A) → Leaves (f a))
      → Leaves (m >>= f)
  Leaves->>= m f first rest t j = elim (Result-cases (m t).0) [
    | inl (a, answered) ↦ ground (arith, first t j, rest a (m t).1 j)
    | inr (e, thrown) ↦ ground (arith, first t j)
  ]

  Leaves-catch :
      {A : Type 0} (m : Action Table A) (h : Error → Action Table A)
      → Leaves m
      → ((e : Error) → Leaves (h e))
      → Leaves (catch m h)
  Leaves-catch m h first rest t j = elim (Result-cases (m t).0) [
    | inl (a, answered) ↦ ground (arith, first t j)
    | inr (e, thrown) ↦ ground (arith, first t j, rest e (m t).1 j)
  ]

  update_item-Leaves :
      (entity : PartialEntity) (now : ℤ) → Leaves (update_item client entity true now)
  unfolding update_item
  update_item-Leaves entity now =
      Leaves->>= (update true (key_of entity) (data_to_update now entity.fields))
        (λ attributes. pure (denormalized attributes))
        (λ t j. find-update j true (key_of entity) (data_to_update now entity.fields) t)
        (λ _ t j. refl)

  recover-Leaves :
      (entity : PartialEntity) (now : ℤ) (e : Error) → Leaves (recover client entity now e)
  recover-Leaves entity now conditional_check_failed = update_item-Leaves entity now
  recover-Leaves entity now not_found = λ t j. refl
  recover-Leaves entity now forbidden = λ t j. refl
  recover-Leaves entity now bad_request = λ t j. refl
  recover-Leaves entity now failure = λ t j. refl

  save_item-Leaves :
      (entity : PartialEntity) (now later : ℤ) → Leaves (save_item client entity now later)
  unfolding save_item put_item
  save_item-Leaves entity now later =
      Leaves-catch (put_item client entity true now) (recover client entity later)
        (Leaves->>= (put true (key_of entity) (data_to_put now entity.fields))
          (λ _. pure (denormalized (data_to_put now entity.fields)))
          (λ t j. find-put j true (key_of entity) (data_to_put now entity.fields) t)
          (λ _ t j. refl))
        (recover-Leaves entity later)

  incremented-Leaves :
      (entity : PartialEntity) (f : String) (value : ℤ) (item : Option Fields) (now later : ℤ)
      → Leaves (incremented client number_add entity f value item now later)
  incremented-Leaves entity f value none now later = λ t j. refl
  incremented-Leaves entity f value (some item) now later =
      let total = added number_add (get_field f item) value in
      save_item-Leaves (record entity { fields = spread item (field f total no_fields) }) now later

  -- An increment of an item of another table changes no item of that table: the result is saved in the
  -- service's own.
  pub increment-other_table :
      (entity : PartialEntity) (f : String) (value now later : ℤ) (t : Table) (j : Key)
      → find_there j (increment client number_add read_there entity f value now later t).1
        ≡ find_there j t
  unfolding increment get_item_from
  increment-other_table entity f value now later =
      Leaves->>= (get_item_from client read_there (key_of entity) true)
        (λ item. incremented client number_add entity f value item now later)
        (Leaves-catch (read_there (key_of entity) >>= λ o. pure (shown client o)) (λ e. throw e)
          (Leaves->>= (read_there (key_of entity)) (λ o. pure (shown client o))
            (λ t j. find-read j (key_of entity) t) (λ o t j. refl))
          (λ e t j. refl))
        (λ item. incremented-Leaves entity f value item now later)
