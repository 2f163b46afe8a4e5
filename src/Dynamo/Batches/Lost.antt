-- ===== src/Dynamo/Batches/Lost.antt =====
-- What `batchGet` leaves out.
use astro_api_gateway.Common.{
  ℕ, zero, suc, ◌≤◌, ◌<◌, ◌≡◌, refl, any, false, ◌∙◌, List, [], ◌∷◌, length, ok, Action, bind-ok,
  arith, pure,
}
use astro_api_gateway.Dynamo.Values.{Fields}
use astro_api_gateway.Dynamo.Items.{Key, key_eq}
use astro_api_gateway.Dynamo.Batches.{BatchClient, batch_get_limit, get_rounds, with_rest}

-- No key is listed twice.
abbrev pub AreDistinct : List Key → Type 0
AreDistinct [] = Unit
AreDistinct (k ∷ ks) = (any (key_eq k) ks ≡ false) × AreDistinct ks

-- What is documented of a call of the client for up to 100 keys that are distinct: it answers where there is
-- no failure, and leaves fewer keys than it was asked for, which are distinct again.
pub record Answers {Request : Type 0} (client : BatchClient Request) : Type 0 where
  pub answers_get :
      (keys : List Key) (t : client.Table)
      → 0 < length keys
      → length keys ≤ 100
      → AreDistinct keys
      → (items : List Fields) × (left : List Key) × (after : client.Table) × (client.batch_get keys
            t
          ≡ (ok (items, left), after))
  pub fewer_left :
      (keys left : List Key) (items : List Fields) (t after : client.Table)
      → client.batch_get keys t ≡ (ok (items, left), after)
      → 0 < length keys
      → length left < length keys
  pub left-AreDistinct :
      (keys left : List Key) (items : List Fields) (t after : client.Table)
      → client.batch_get keys t ≡ (ok (items, left), after)
      → AreDistinct keys
      → AreDistinct left

-- The calls for some keys, one after another, each for the keys that the one before it left, until none are
-- left; with the items that the first call answered.
pub data Rounds {Request : Type 0} (client : BatchClient Request)
    : List Key → client.Table → List Fields → client.Table → Type 0 where
  no_calls : {t : client.Table} → Rounds client [] t [] t
  one_call :
      {k : Key} {ks left : List Key} {t mid after : client.Table} {items more : List Fields}
      → client.batch_get (k ∷ ks) t ≡ (ok (items, left), mid)
      → Rounds client left mid more after
      → Rounds client (k ∷ ks) t items after

module _ {Request : Type 0} (client : BatchClient Request) (laws : Answers client) where
  open client use {Table, batch_get}
  open laws use {answers_get, fewer_left, left-AreDistinct}

  abbrev continue : ℕ → List Fields × List Key → Action Table (List Fields)
  continue fuel answer = with_rest client answer.0 answer.1 (get_rounds client fuel answer.1)

  with_rest-answer :
      (items more : List Fields) (left : List Key) (fuel : ℕ) (t after : Table)
      → Rounds client left t more after
      → get_rounds client fuel left t ≡ (ok more, after)
      → with_rest client items left (get_rounds client fuel left) t ≡ (ok items, after)
  with_rest-answer items more [] fuel t after no_calls h = refl
  with_rest-answer items more (k ∷ ks) fuel t after rounds h =
      bind-ok (get_rounds client fuel (k ∷ ks)) (λ _. pure items) t after more h

  -- The rounds of a chunk of at most 100 distinct keys end: what each call left is asked for again until
  -- nothing is left, but the items of the first call alone are answered.
  pub get_rounds-first :
      (fuel : ℕ) (keys : List Key) (t : Table)
      → length keys ≤ fuel
      → length keys ≤ batch_get_limit
      → AreDistinct keys
      → (items : List Fields) × (after : Table) × (get_rounds client fuel keys t
          ≡ (ok items, after))
        × Rounds client keys t items after
  unfolding get_rounds
  get_rounds-first fuel [] t enough size distinct = ([], t, refl, no_calls)
  get_rounds-first zero (k ∷ ks) t enough size distinct = absurd (omega arith)
  get_rounds-first (suc fuel) (k ∷ ks) t enough size distinct =
      let (items, left, mid, said) = answers_get (k ∷ ks) t (omega arith) size distinct in
      let fewer = fewer_left (k ∷ ks) left items t mid said (omega arith) in
      let first = bind-ok (batch_get (k ∷ ks)) (continue fuel) t mid (items, left) said in
      let (more, after, again, rounds) =
        get_rounds-first fuel left mid (omega (arith, fewer)) (omega (arith, fewer))
          (left-AreDistinct (k ∷ ks) left items t mid said distinct) in
      (
        items,
        after,
        first ∙ with_rest-answer items more left fuel mid after rounds again,
        one_call said rounds,
      )
