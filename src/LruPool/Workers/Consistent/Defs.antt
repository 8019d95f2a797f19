-- ===== src/LruPool/Workers/Consistent/Defs.antt =====
-- The invariant of the pool of include/qvcache/lru_thread_pool.h.
use qvcache.Common.{
  ℕ, ◌+◌, ◌<◌, ◌==◌, List, [], ◌++◌, true, if◌then◌else◌, length, take, total, ◌≡◌,
}
use qvcache.Lru.{order}
use qvcache.Lru.Invariant.{IsValid}
use qvcache.LruPool.Batch.{uses}
use qvcache.LruPool.Workers.{Worker, waiting, taken, running, counting, returned, Pool}

abbrev pub differ : ℕ → ℕ → ℕ
differ a b = if a == b then 0 else 1

module _ {A : Type 0} (dec : Discrete A) where
  abbrev P : Type 0
  P = Pool dec

  abbrev W : Type 0
  W = Worker dec

  -- A weight of tasks, on the task of a worker.
  abbrev pub held : (List A → ℕ) → W → ℕ
  held f (taken t) = f t
  held f (running t tags results) = f t
  held f waiting = 0
  held f counting = 0
  held f returned = 0

  abbrev pub active : W → ℕ
  active (running t tags results) = 1
  active counting = 1
  active waiting = 0
  active (taken t) = 0
  active returned = 0

  abbrev pub gone : W → ℕ
  gone returned = 1
  gone waiting = 0
  gone (taken t) = 0
  gone (running t tags results) = 0
  gone counting = 0

  -- A worker whose results do not match the tags it has done.
  abbrev pub unmatched : W → ℕ
  unmatched (running t tags results) = differ (length results + length tags) (length t)
  unmatched waiting = 0
  unmatched (taken t) = 0
  unmatched counting = 0
  unmatched returned = 0

  -- Tasks start in the order of the queue, and each that started has finished or is in one worker;
  -- a future has a result for each tag; `active_threads_` counts the workers in a task; a worker
  -- returns after the stop and the last task; and the cache is what the accesses, one after the
  -- other, leave of their tags: those used last, as many as fit, the latest first.
  pub record Consistent (capacity : ℕ) (s : P) : Type 0 where
    pub ordered : s.enqueued ≡ s.started ++ s.tasks
    pub once :
        (f : List A → ℕ)
        → total f s.started ≡ total (λ r. f r.0) s.finished + total (held f) s.workers
    pub matched : total unmatched s.workers ≡ 0
    pub complete : total (λ r. differ (length r.1) (length r.0)) s.finished ≡ 0
    pub active_threads : s.active_threads ≡ total active s.workers
    pub drained : 0 < total gone s.workers → (s.stop ≡ true) × (s.tasks ≡ [])
    pub valid : IsValid dec s.cache
    pub capacity_kept : s.cache.max_capacity ≡ capacity
    pub used : order s.cache ≡ take capacity (uses dec [] s.accessed)
