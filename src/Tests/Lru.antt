-- ===== src/Tests/Lru.antt =====
-- include/qvcache/lru_cache.h on small caches.
use qvcache.Common.{
  ℕ, List, [], ◌∷◌, Bool, true, false, not, some, take, length, ◌≡◌, refl, arith, ℕ_discrete, find,
  put, erase, dec_le,
}
use qvcache.Lru
use qvcache.Lru.{LruCache, init, access, order, contains, evict, get_lru_tags, get_mru_tags}
use qvcache.Lru.Invariant.{IsValid, init-IsValid}
use qvcache.Lru.Order.{Accessed, access-Accessed}
use qvcache.Lru.Evict.{Evicted, evict-Evicted}
use qvcache.LruPool.{access_batch}
use qvcache.LruPool.Batch.{uses, access_batch-uses}

-- After accesses to 1, 2, 1 and 3 at capacity 2.
abbrev full : LruCache ℕ
full = record {
  order_list = (3, 2) ∷ (1, 0) ∷ [];
  tag_map = (1, 0) ∷ (3, 2) ∷ [];
  next_address = 3;
  max_capacity = 2;
}

batch_run :
    access_batch ℕ_discrete (init 2) (1 ∷ 2 ∷ 1 ∷ 3 ∷ [])
    ≡ some (full, true ∷ true ∷ false ∷ true ∷ [])
unfolding access_batch access Lru.drop_lru Lru.push_new Lru.splice_front Lru.tag_at Lru.unlink init
    ℕ_discrete find dec_le put erase
batch_run = refl

full-IsValid : IsValid ℕ_discrete full
unfolding find Lru.tag_at
full-IsValid = record { distinct = ground arith; agree = λ t. ground arith; bounded = omega arith }

access-Accessed_example :
    (c' : LruCache ℕ) × (access ℕ_discrete full 1 ≡ some (c', not (contains ℕ_discrete full 1)))
    × Accessed ℕ_discrete full c' 1
access-Accessed_example = access-Accessed ℕ_discrete full 1 full-IsValid (omega arith)

evict-Evicted_example :
    (c' : LruCache ℕ) × (evict ℕ_discrete full 1 ≡ some (get_lru_tags full 1, c'))
    × Evicted ℕ_discrete full (get_lru_tags full 1) c'
evict-Evicted_example = evict-Evicted ℕ_discrete full 1 full-IsValid

access_batch-uses_example :
    (c' : LruCache ℕ) × (results : List Bool) × (access_batch ℕ_discrete
        (init 2)
        (1 ∷ 2 ∷ 1 ∷ 3 ∷ [])
      ≡ some (c', results))
    × IsValid ℕ_discrete c'
    × (order c' ≡ take 2 (uses ℕ_discrete [] (1 ∷ 2 ∷ 1 ∷ 3 ∷ [])))
    × (length results ≡ 4)
unfolding init
access_batch-uses_example =
    access_batch-uses ℕ_discrete (1 ∷ 2 ∷ 1 ∷ 3 ∷ []) (init 2) [] (init-IsValid ℕ_discrete 2)
      (omega arith) refl
