-- ===== src/Dynamo/Batches.antt =====
-- `batchPut`, `batchDelete` and `batchGet` of libs/dynamodb/src/dynamodb.service.ts. The chunks, which
-- the service sends at once, are sent one after another here.
pub mod Requests
pub mod Written
pub mod Lost
use astro_api_gateway.Common.{
  ℕ, ℤ, zero, suc, ◌+◌, ◌-◌, List, [], ◌∷◌, ◌++◌, map, length, failure, Action, pure, throw, ◌>>=◌,
  ◌>>◌,
}
use astro_api_gateway.Cache.{get_chunks}
use astro_api_gateway.Cache.Chunks.{concat}
use astro_api_gateway.Dynamo.Values.{Fields}
use astro_api_gateway.Dynamo.Items.{Key, PartialEntity, key_of, data_to_put}

abbrev pub batch_write_limit : ℕ
batch_write_limit = 25

abbrev pub batch_get_limit : ℕ
batch_get_limit = 100

-- The calls of the client for up to 25 writes and up to 100 keys. A call answers what it left to be
-- done.
pub record BatchClient (Request : Type 0) : Type 1 where
  pub Table : Type 0
  pub batch_write : List Request → Action Table (List Request)
  pub batch_get : List Key → Action Table (List Fields × List Key)

-- `arr.reduce((total, count) => total + count, 0)`
abbrev pub sum_from : ℕ → List ℕ → ℕ
sum_from total [] = total
sum_from total (n ∷ ns) = sum_from (total + n) ns

-- `Promise.all(chunks.map(f))`
abbrev pub for_all : {S A B : Type 0} → (A → Action S B) → List A → Action S (List B)
for_all f [] = pure []
for_all f (x ∷ xs) = do y ← f x; ys ← for_all f xs; pure (y ∷ ys)

module _ {Request : Type 0} (client : BatchClient Request) where
  open client use {Table, batch_write, batch_get}

  -- The number of items done, with what was left for the later rounds.
  abbrev pub finish_round : ℕ → List Request → Action Table ℕ → Action Table ℕ
  finish_round total [] again = pure total
  finish_round total (x ∷ xs) again = do count ← again; pure (total - length (x ∷ xs) + count)

  -- The writes of a chunk, and again of what is left, on fuel. `prepare` makes the request of an item
  -- in a round; the rounds are counted.
  unfoldable pub write_rounds : (ℕ → Request → Request) → ℕ → ℕ → List Request → Action Table ℕ
  write_rounds prepare round fuel [] = pure 0
  write_rounds prepare round zero (x ∷ xs) = throw failure
  write_rounds prepare round (suc fuel) (x ∷ xs) = do
    unprocessed ← batch_write (map (prepare round) (x ∷ xs))
    let again = write_rounds prepare (suc round) fuel unprocessed
    finish_round (length (x ∷ xs)) unprocessed again

  abbrev pub write_chunk : (ℕ → Request → Request) → List Request → Action Table ℕ
  write_chunk prepare xs = write_rounds prepare 0 (length xs) xs

  unfoldable pub write_all : (ℕ → Request → Request) → List Request → Action Table ℕ
  unfolding write_rounds
  write_all prepare xs = do
    counts ← for_all (write_chunk prepare) (get_chunks xs batch_write_limit)
    pure (sum_from 0 counts)

  -- What the later rounds answer is not used: `concat` leaves the array that it is called on.
  abbrev pub with_rest :
      List Fields → List Key → Action Table (List Fields) → Action Table (List Fields)
  with_rest results [] again = pure results
  with_rest results (k ∷ ks) again = do again; pure results

  unfoldable pub get_rounds : ℕ → List Key → Action Table (List Fields)
  get_rounds fuel [] = pure []
  get_rounds zero (k ∷ ks) = throw failure
  get_rounds (suc fuel) (k ∷ ks) = do
    answer ← batch_get (k ∷ ks)
    let again = get_rounds fuel answer.1
    with_rest answer.0 answer.1 again

  abbrev pub get_chunk : List Key → Action Table (List Fields)
  get_chunk keys = get_rounds (length keys) keys

  unfoldable pub batch_get_all : List Key → Action Table (List Fields)
  unfolding get_rounds
  batch_get_all keys = do
    results ← for_all get_chunk (get_chunks keys batch_get_limit)
    pure (concat results)

-- `batchPut`, with the time of each round.
unfoldable pub batch_put :
    (client : BatchClient Fields) → (ℕ → ℤ) → List Fields → Action client.Table ℕ
unfolding write_all data_to_put
batch_put client clock items = write_all client (λ round item. data_to_put (clock round) item) items

-- `batchDelete`; the requests are the keys.
unfoldable pub batch_delete :
    (client : BatchClient Key) → List PartialEntity → Action client.Table ℕ
unfolding write_all
batch_delete client items = write_all client (λ round key. key) (map key_of items)
