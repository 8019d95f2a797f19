-- ===== src/LruPool.antt =====
-- include/qvcache/lru_thread_pool.h: the tasks that run accesses on the LRU cache.
pub mod Batch
pub mod Workers
use qvcache.Common.{List, [], ◌∷◌, Bool, Option, some, ◌>>=◌}
use qvcache.Lru.{LruCache, access}

module _ {A : Type 0} (dec : Discrete A) where
  -- The body of the task of `async_access_batch`, and of `async_access_array`: one access for each
  -- tag, and the list of their results.
  unfoldable pub access_batch : LruCache A → List A → Option (LruCache A × List Bool)
  access_batch c [] = some (c, [])
  access_batch c (t ∷ ts) = do
    (c', result) ← access dec c t
    (c'', results) ← access_batch c' ts
    some (c'', result ∷ results)
