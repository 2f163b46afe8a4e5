-- ===== src/Dynamo/Items/Saving.antt =====
-- What `saveItem` stores: a new item, or the new fields over those that are there.
use astro_api_gateway.Common.{
  ◌≡◌, refl, ap, ◌∙◌, inl, inr, ◌⊎◌, ℤ, true, Option, none, some, Result, ok, err, failure,
  conditional_check_failed, if◌then◌else◌, Bool-cases, Option-cases, bind-ok, bind-err, catch-ok,
  catch-err, pure, arith,
}
use astro_api_gateway.Dynamo.Values.{Fields}
use astro_api_gateway.Dynamo.Items.{
  Key, key_eq, spread, DocumentClient, PartialEntity, key_of, denormalized, data_to_put,
  data_to_update, put_item, recover, save_item,
}

-- The item after a save, by the item before it.
abbrev pub saved : PartialEntity → ℤ → ℤ → Option Fields → Fields
saved entity now later none = data_to_put now entity.fields
saved entity now later (some old) = spread old (data_to_update later entity.fields)

module _ (client : DocumentClient) where
  open client use {
    Table, look_up, reachable, put, update, put_answer, look_up-put, update_answer, look_up-update,
  }

  -- What a save has stored, by its answer.
  abbrev pub Stores : PartialEntity → ℤ → ℤ → Table → Result Fields × Table → Type 0
  Stores entity now later t (ok item, after) =
      let stored = saved entity now later (look_up (key_of entity) t) in
      (item ≡ denormalized stored)
      × ((j : Key)
          → look_up j after ≡ (if key_eq (key_of entity) j then some stored else look_up j t))
  Stores entity now later t (err e, after) =
      (e ≡ failure) × ((j : Key) → look_up j after ≡ look_up j t)

  Unchanged : Table → Table → Type 0
  Unchanged t after = (j : Key) → look_up j after ≡ look_up j t

  Written : Key → Fields → Table → Table → Type 0
  Written k item t after =
      (j : Key) → look_up j after ≡ (if key_eq k j then some item else look_up j t)

  -- The three outcomes of a put of a new item.
  abbrev PutOutcome : Key → Fields → Table → Table → Result (Unit {0}) → Type 0
  PutOutcome k item t after r =
      ((r ≡ ok tt) × (look_up k t ≡ none) × Written k item t after)
      ⊎ ((r ≡ err conditional_check_failed)
          × ((old : Fields) × (look_up k t ≡ some old))
          × Unchanged t after)
      ⊎ ((r ≡ err failure) × Unchanged t after)

  put_outcome :
      (k : Key) (item : Fields) (t : Table)
      → PutOutcome k item t (put true k item t).1 (put true k item t).0
  unfolding Unchanged Written
  put_outcome k item t = elim (Bool-cases (reachable t)) [
    | inl up ↦ elim (Option-cases (look_up k t)) [
      | inl missing ↦ inl (
        ground (arith, put_answer true k item t),
        missing,
        λ j. ground (arith, put_answer true k item t, look_up-put true j k item t),
      )
      | inr (old, found) ↦ inr (
          inl (
            ground (arith, put_answer true k item t),
            (old, found),
            λ j. ground (arith, put_answer true k item t, look_up-put true j k item t),
          ))
    ]
    | inr down ↦ inr (
        inr (
          ground (arith, put_answer true k item t),
          λ j. ground (arith, put_answer true k item t, look_up-put true j k item t),
        ))
  ]

  abbrev UpdateOutcome : Key → Fields → Fields → Table → Table → Result Fields → Type 0
  UpdateOutcome k old new t after r =
      ((r ≡ ok (spread old new)) × Written k (spread old new) t after)
      ⊎ ((r ≡ err failure) × Unchanged t after)

  -- The two outcomes of an update of an item that is there.
  update_outcome :
      (k : Key) (old new : Fields) (t : Table)
      → look_up k t ≡ some old
      → UpdateOutcome k old new t (update true k new t).1 (update true k new t).0
  unfolding Unchanged Written
  update_outcome k old new t found = elim (Bool-cases (reachable t)) [
    | inl up ↦ inl (
      ground (arith, update_answer true k new t),
      λ j. ground (arith, update_answer true k new t, look_up-update true j k new t),
    )
    | inr down ↦ inr (
      ground (arith, update_answer true k new t),
      λ j. ground (arith, update_answer true k new t, look_up-update true j k new t),
    )
  ]

  -- A save stores the new item, or sets the new fields of the item that is there; a save that fails
  -- changes nothing, and no condition fails.
  pub save_item_lem :
      (entity : PartialEntity) (now later : ℤ) (t : Table)
      → Stores entity now later t (save_item client entity now later t)
  unfolding save_item Unchanged Written
  save_item_lem entity now later t =
      let k = key_of entity in
      let item = data_to_put now entity.fields in
      let new = data_to_update later entity.fields in
      let mid : Table = (put true k item t).1 in
      let end : Table = (update true k new mid).1 in
      elim (put_outcome k item t) [
        | inl (answer, missing, written) ↦
            let stored =
              bind-ok (put true k item) (λ _. pure (denormalized item)) t mid tt
                (ap (λ r. (r, mid)) answer) in
            rw
              (
                catch-ok (put_item client entity true now) (recover client entity later) t mid
                    (denormalized item) stored,
                missing,
              )
              (refl, written)
        | inr (inl (answer, (old, found), same)) ↦
            let refused =
              catch-err (put_item client entity true now) (recover client entity later) t mid
                conditional_check_failed
                (bind-err (put true k item) (λ _. pure (denormalized item)) t mid
                  conditional_check_failed (ap (λ r. (r, mid)) answer)) in
            elim (update_outcome k old new mid (same k ∙ found)) [
              | inl (attributes, written) ↦
                  let stored =
                    bind-ok (update true k new) (λ fs. pure (denormalized fs)) mid end
                      (spread old new) (ap (λ r. (r, end)) attributes) in
                  rw (refused ∙ stored, found)
                    (
                      refl,
                      λ j.
                          written j
                          ∙ ap (λ o. if key_eq k j then some (spread old new) else o) (same j),
                    )
              | inr (failed, unchanged) ↦
                  let thrown =
                    bind-err (update true k new) (λ fs. pure (denormalized fs)) mid end failure
                      (ap (λ r. (r, end)) failed) in
                  rw (refused ∙ thrown) (refl, λ j. unchanged j ∙ same j)
            ]
        | inr (inr (answer, same)) ↦
            let thrown =
              bind-err (put true k item) (λ _. pure (denormalized item)) t mid failure
                (ap (λ r. (r, mid)) answer) in
            rw
              (catch-err (put_item client entity true now) (recover client entity later) t mid
                failure thrown)
              (refl, same)
      ]
