-- ===== src/Tests/LruPool.antt =====
-- A run of the pool of include/qvcache/lru_thread_pool.h with one thread.
use qvcache.Common.{[], ◌∷◌, true, false, find, put, ℕ_discrete, dec_le, refl, arith}
use qvcache.Lru
use qvcache.LruPool.Workers.{
  running, Pool, enqueue_task, take_task, fetch_add, access_tag, init, Reach, start, later,
}
use qvcache.LruPool.Workers.Consistent.{Consistent, Reach-Consistent}

-- Tags 4 and 5 were enqueued, and 4 has been used, on a cache of one tag.
abbrev halfway : Pool ℕ_discrete
halfway = record {
  workers = running (4 ∷ 5 ∷ []) (5 ∷ []) (true ∷ []) ∷ [];
  tasks = [];
  stop = false;
  active_threads = 1;
  cache = record {
    order_list = (4, 0) ∷ [];
    tag_map = (4, 0) ∷ [];
    next_address = 1;
    max_capacity = 1;
  };
  enqueued = (4 ∷ 5 ∷ []) ∷ [];
  started = (4 ∷ 5 ∷ []) ∷ [];
  finished = [];
  accessed = 4 ∷ [];
}

halfway-Reach : Reach ℕ_discrete 1 1 halfway
unfolding init Lru.init Lru.access find put ℕ_discrete dec_le Lru.push_new
halfway-Reach =
    later
      (later
        (later (later start (enqueue_task (4 ∷ 5 ∷ []) refl))
          (take_task 0 (4 ∷ 5 ∷ []) [] refl refl))
        (fetch_add 0 (4 ∷ 5 ∷ []) refl))
      (access_tag 0 (4 ∷ 5 ∷ []) 4 (5 ∷ []) [] halfway.cache true refl refl)

Reach-Consistent_example : Consistent ℕ_discrete 1 halfway
Reach-Consistent_example = Reach-Consistent ℕ_discrete 1 1 halfway (omega arith) halfway-Reach
