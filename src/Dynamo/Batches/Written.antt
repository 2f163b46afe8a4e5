-- ===== src/Dynamo/Batches/Written.antt =====
-- What `batchPut` and `batchDelete` have done when they answer.
use astro_api_gateway.Common.{
  ℤ, ℕ, zero, suc, ◌+◌, ◌-◌, ◌≤◌, ◌<◌, ◌≡◌, refl, ap, ◌∙◌, sym, Bool, List, [], ◌∷◌, map, length,
  ok, All, arith, bind-ok, Action, pure, ◌>>=◌,
}
use mathlib.Core.Path.{subst}
use astro_api_gateway.Cache.{get_chunks}
use astro_api_gateway.Cache.Chunks.{concat, IsChunk, get_chunks_lem}
use astro_api_gateway.Dynamo.Values.{Fields}
use astro_api_gateway.Dynamo.Items.{Key, PartialEntity, key_of, data_to_put}
use astro_api_gateway.Dynamo.Batches.{
  BatchClient, batch_write_limit, sum_from, for_all, write_rounds, write_chunk, write_all,
  finish_round, batch_put, batch_delete,
}
use astro_api_gateway.Dynamo.Batches.Requests.{
  count, count-append, length-map, map-append, All-left, sum_from-length, AreDistinct,
  AreDistinct-append,
}

-- What is documented of a call of the client for up to 25 requests, no two for the same item: it does some
-- of them and answers the others, at least one is done, and it answers where there is no failure.
pub record DoesWrites {Request : Type 0} (client : BatchClient Request) : Type 1 where
  -- the number of writes done that have a property
  pub written : (Request → Bool) → client.Table → ℕ
  -- two requests are for the same item
  pub same_item : Request → Request → Bool
  pub answers :
      (xs : List Request) (t : client.Table)
      → 0 < length xs
      → length xs ≤ 25
      → AreDistinct same_item xs
      → (rest : List Request) × (after : client.Table) × (client.batch_write xs t
          ≡ (ok rest, after))
  pub written-batch_write :
      (p : Request → Bool) (xs rest : List Request) (t after : client.Table)
      → client.batch_write xs t ≡ (ok rest, after)
      → written p after + count p rest ≡ written p t + count p xs
  pub some_done :
      (xs rest : List Request) (t after : client.Table)
      → client.batch_write xs t ≡ (ok rest, after)
      → 0 < length xs
      → length rest < length xs
  pub rest-AreDistinct :
      (xs rest : List Request) (t after : client.Table)
      → client.batch_write xs t ≡ (ok rest, after)
      → AreDistinct same_item xs
      → AreDistinct same_item rest
  pub of_the_call :
      (P : Request → Type 0) (xs rest : List Request) (t after : client.Table)
      → client.batch_write xs t ≡ (ok rest, after)
      → All P xs
      → All P rest

module _ {Request : Type 0} (client : BatchClient Request) (laws : DoesWrites client)
    (prepare : ℕ → Request → Request) where
  open client use {Table}
  open laws use {
    written, same_item, answers, written-batch_write, some_done, rest-AreDistinct, of_the_call,
  }

  -- To prepare a request again leaves it.
  abbrev pub IsStable : Request → Type 0
  IsStable x = (m n : ℕ) → prepare n (prepare m x) ≡ prepare m x

  abbrev IsFixed : Request → Type 0
  IsFixed x = (n : ℕ) → prepare n x ≡ x

  map-IsFixed : (xs : List Request) (m : ℕ) → All IsStable xs → All IsFixed (map (prepare m) xs)
  map-IsFixed [] m h = tt
  map-IsFixed (x ∷ xs) m (s, h) = (s m, map-IsFixed xs m h)

  IsFixed-IsStable : (xs : List Request) → All IsFixed xs → All IsStable xs
  IsFixed-IsStable [] h = tt
  IsFixed-IsStable (x ∷ xs) (f, h) = (λ m n. rw (f m) (f n), IsFixed-IsStable xs h)

  map-prepare : (xs : List Request) (m : ℕ) → All IsFixed xs → map (prepare m) xs ≡ xs
  map-prepare [] m h = refl
  map-prepare (x ∷ xs) m (f, h) = rw (f m, map-prepare xs m h) refl

  -- All requests are done, each once.
  abbrev pub Done : ℕ → List Request → Table → Table → Type 0
  Done round xs t after =
      (p : Request → Bool) → written p after ≡ written p t + count p (map (prepare round) xs)

  -- The rounds of a chunk, with what its first round answers.
  abbrev Finishes : ℕ → ℕ → List Request → Table → Type 0
  Finishes round fuel xs t =
      (after : Table) × (write_rounds client prepare round fuel xs t ≡ (ok (length xs), after))
      × Done round xs t after

  abbrev continue : ℕ → ℕ → Request → List Request → List Request → Action Table ℕ
  continue round fuel x xs rest =
      finish_round client (length (x ∷ xs)) rest (write_rounds client prepare (suc round) fuel rest)

  finish :
      (round fuel : ℕ) (x : Request) (xs rest : List Request) (t mid : Table)
      → client.batch_write (map (prepare round) (x ∷ xs)) t ≡ (ok rest, mid)
      → All IsFixed rest
      → Finishes (suc round) fuel rest mid
      → Finishes round (suc fuel) (x ∷ xs) t
  unfolding write_rounds
  finish round fuel x xs [] t mid said fixed more = (
    mid,
    bind-ok (client.batch_write (map (prepare round) (x ∷ xs))) (continue round fuel x xs) t mid []
        said,
    λ p. omega (arith, written-batch_write p (map (prepare round) (x ∷ xs)) [] t mid said),
  )
  finish round fuel x xs (y ∷ ys) t mid said fixed (after, counted, done) =
      let fewer : length (y ∷ ys) < length (x ∷ xs) = omega (
        arith,
        some_done (map (prepare round) (x ∷ xs)) (y ∷ ys) t mid said,
        length-map (prepare round) (x ∷ xs),
      ) in
      let size : length (x ∷ xs) - length (y ∷ ys) + length (y ∷ ys) ≡ length (x ∷ xs) =
        omega (arith, fewer) in
      (
        after,
        bind-ok (client.batch_write (map (prepare round) (x ∷ xs))) (continue round fuel x xs) t mid
              (y ∷ ys) said
            ∙ bind-ok (write_rounds client prepare (suc round) fuel (y ∷ ys))
                (λ n. pure (length (x ∷ xs) - length (y ∷ ys) + n)) mid after (length (y ∷ ys))
                counted
            ∙ ap (λ n. (ok n, after)) size,
        λ p. omega (
          arith,
          written-batch_write p (map (prepare round) (x ∷ xs)) (y ∷ ys) t mid said,
          done p,
          ap (count p) (map-prepare (y ∷ ys) (suc round) fixed),
        ),
      )

  write_rounds_lem :
      (round fuel : ℕ) (xs : List Request) (t : Table)
      → length xs ≤ fuel
      → length xs ≤ batch_write_limit
      → AreDistinct same_item (map (prepare round) xs)
      → All IsStable xs
      → Finishes round fuel xs t
  unfolding write_rounds
  write_rounds_lem round fuel [] t enough size distinct stable = (t, refl, λ p. omega arith)
  write_rounds_lem round zero (x ∷ xs) t enough size distinct stable = absurd (omega arith)
  write_rounds_lem round (suc fuel) (x ∷ xs) t enough size distinct stable =
      let sent = length-map (prepare round) (x ∷ xs) in
      let (rest, mid, said) =
        answers (map (prepare round) (x ∷ xs)) t (omega (arith, sent)) (omega (arith, sent))
          distinct in
      let fewer : length rest < length (x ∷ xs) =
        omega (arith, some_done (map (prepare round) (x ∷ xs)) rest t mid said, sent) in
      let fixed : All IsFixed rest =
        of_the_call IsFixed (map (prepare round) (x ∷ xs)) rest t mid said
          (map-IsFixed (x ∷ xs) round stable) in
      finish round fuel x xs rest t mid said fixed (
        write_rounds_lem (suc round) fuel rest mid (omega (arith, fewer)) (omega (arith, fewer))
          (rw (map-prepare rest (suc round) fixed)
            (rest-AreDistinct (map (prepare round) (x ∷ xs)) rest t mid said distinct))
          (IsFixed-IsStable rest fixed))

  abbrev write_chunks : List (List Request) → Action Table (List ℕ)
  write_chunks xss = for_all (write_chunk client prepare) xss

  sizes_of :
      (xss : List (List Request))
      → All (IsChunk batch_write_limit) xss
      → All (λ xs. length xs ≤ batch_write_limit) xss
  sizes_of [] h = tt
  sizes_of (xs ∷ xss) (h, hs) = (h.1, sizes_of xss hs)

  for_all_lem :
      (xss : List (List Request)) (t : Table)
      → All (λ xs. length xs ≤ batch_write_limit) xss
      → AreDistinct same_item (map (prepare 0) (concat xss))
      → All IsStable (concat xss)
      → (after : Table) × (for_all (write_chunk client prepare) xss t
          ≡ (ok (map length xss), after))
        × Done 0 (concat xss) t after
  for_all_lem [] t sizes distinct stable = (t, refl, λ p. omega arith)
  for_all_lem (xs ∷ xss) t (size, sizes) distinct stable =
      let (here, there) = All-left IsStable xs (concat xss) stable in
      let (one, many) =
        AreDistinct-append same_item (map (prepare 0) xs) (map (prepare 0) (concat xss))
          (subst (AreDistinct same_item) (map-append (prepare 0) xs (concat xss)) distinct) in
      let (mid, first, done) = write_rounds_lem 0 (length xs) xs t (omega arith) size one here in
      let (after, others, more) = for_all_lem xss mid sizes many there in
      (
        after,
        bind-ok (write_chunk client prepare xs) (λ n. write_chunks xss >>= λ ns. pure (n ∷ ns)) t
              mid (length xs) first
            ∙ bind-ok (write_chunks xss) (λ ns. pure (length xs ∷ ns)) mid after (map length xss)
                others,
        λ p. omega (
          arith,
          done p,
          more p,
          ap (count p) (map-append (prepare 0) xs (concat xss)),
          count-append p (map (prepare 0) xs) (map (prepare 0) (concat xss)),
        ),
      )

  -- Where every call of the client that keeps the limits answers, the write of a batch ends: it answers the number of items,
  -- and each item was written once, as it was prepared in the first round. Preparing an item again is
  -- to leave it.
  pub write_all_lem :
      (xs : List Request) (t : Table)
      → AreDistinct same_item (map (prepare 0) xs)
      → All IsStable xs
      → (after : Table) × (write_all client prepare xs t ≡ (ok (length xs), after))
        × Done 0 xs t after
  unfolding write_all
  write_all_lem xs t distinct stable =
      let whole : concat (get_chunks xs batch_write_limit) ≡ xs =
        (get_chunks_lem xs batch_write_limit (omega arith)).0 in
      let (after, counted, done) =
        for_all_lem (get_chunks xs batch_write_limit) t
          (sizes_of (get_chunks xs batch_write_limit)
            (get_chunks_lem xs batch_write_limit (omega arith)).1)
          (rw (whole) distinct) (rw (whole) stable) in
      let size : sum_from 0 (map length (get_chunks xs batch_write_limit)) ≡ length xs =
        omega (arith, sum_from-length 0 (get_chunks xs batch_write_limit), ap length whole) in
      (
        after,
        bind-ok (write_chunks (get_chunks xs batch_write_limit)) (λ ns. pure (sum_from 0 ns)) t
              after (map length (get_chunks xs batch_write_limit)) counted
            ∙ ap (λ n. (ok n, after)) size,
        λ p. done p ∙ ap (λ ys. written p t + count p (map (prepare 0) ys)) whole,
      )

-- Where every call of the client that keeps the limits answers, `batchPut` of items with different keys ends: it answers the number of items, and each was
-- written once with the time of the first round. An item that is put again is to be left as it was put.
pub batch_put_lem :
    (client : BatchClient Fields) (laws : DoesWrites client) (clock : ℕ → ℤ) (items : List Fields)
    (t : client.Table)
    → AreDistinct laws.same_item (map (data_to_put (clock 0)) items)
    → All
        (λ item.
          (m n : ℕ)
          → data_to_put (clock n) (data_to_put (clock m) item) ≡ data_to_put (clock m) item)
        items
    → (after : client.Table) × (batch_put client clock items t ≡ (ok (length items), after))
      × ((p : Fields → Bool)
          → laws.written p after ≡ laws.written p t + count p (map (data_to_put (clock 0)) items))
unfolding batch_put
batch_put_lem client laws clock items t distinct stable =
    write_all_lem client laws (λ round item. data_to_put (clock round) item) items t distinct stable

All-any : {A : Type 0} (P : A → Type 0) → ((x : A) → P x) → (xs : List A) → All P xs
All-any P h [] = tt
All-any P h (x ∷ xs) = (h x, All-any P h xs)

-- Where every call of the client that keeps the limits answers, `batchDelete` of different items ends: it answers the number of items, and each
-- key was deleted once.
pub batch_delete_lem :
    (client : BatchClient Key) (laws : DoesWrites client) (items : List PartialEntity)
    (t : client.Table)
    → AreDistinct laws.same_item (map key_of items)
    → (after : client.Table) × (batch_delete client items t ≡ (ok (length items), after))
      × ((p : Key → Bool) → laws.written p after ≡ laws.written p t + count p (map key_of items))
unfolding batch_delete
batch_delete_lem client laws items t distinct =
    let keys = map key_of items in
    let (after, said, done) =
      write_all_lem client laws (λ round key. key) keys t
        (subst (AreDistinct laws.same_item) (sym (map-same keys)) distinct)
        (All-any (λ x. (m n : ℕ) → x ≡ x) (λ x m n. refl) keys) in
    (
      after,
      said ∙ ap (λ n. (ok n, after)) (length-map key_of items),
      λ p. done p ∙ ap (λ ys. laws.written p t + count p ys) (map-same keys),
    )
  where
    map-same : (keys : List Key) → map (λ k. k) keys ≡ keys
    map-same [] = refl
    map-same (k ∷ ks) = ap (λ xs. k ∷ xs) (map-same ks)
