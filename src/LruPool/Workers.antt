-- ===== src/LruPool/Workers.antt =====
-- The threads of include/qvcache/lru_thread_pool.h: workers that take batches of accesses from a
-- queue and make them on one cache, interleaved in any order. Every access holds the mutex of the
-- cache, so it is one step. A worker's wait is one step, taken when its condition holds. A future is
-- known by its task.
pub mod Consistent
use qvcache.Common.{ℕ, suc, ◌-◌, List, [], ◌∷◌, ◌++◌, Bool, true, false, some, get_elem?, set, ◌≡◌}
use qvcache.InsertPool.{copies}
use qvcache.Lru
use qvcache.Lru.{LruCache, access}

module _ {A : Type 0} (dec : Discrete A) where
  -- A worker: in the wait, with a task before `active_threads_.fetch_add`, in a task with the tags to
  -- come and the results so far, before `active_threads_.fetch_sub`, or at its end.
  pub data Worker : Type 0 where
    waiting : Worker
    taken : List A → Worker
    running : List A → List A → List Bool → Worker
    counting : Worker
    returned : Worker

  -- What was enqueued, started and finished so far, and the tags in the order of their accesses, are
  -- kept beside the pool.
  pub record Pool : Type 0 where
    pub workers : List Worker
    pub tasks : List (List A)
    pub stop : Bool
    pub active_threads : ℕ
    pub cache : LruCache A
    pub enqueued : List (List A)
    pub started : List (List A)
    pub finished : List (List A × List Bool)
    pub accessed : List A

  pub data Step (s : Pool) : Pool → Type 0 where
    enqueue_task :
        (t : List A)
        → s.stop ≡ false
        → Step s (record s { tasks = s.tasks ++ t ∷ []; enqueued = s.enqueued ++ t ∷ [] })
    take_task :
        (i : ℕ) (t : List A) (ts : List (List A))
        → get_elem? s.workers i ≡ some waiting
        → s.tasks ≡ t ∷ ts
        → Step s (record s {
          workers = set s.workers i (taken t);
          tasks = ts;
          started = s.started ++ t ∷ [];
        })
    fetch_add :
        (i : ℕ) (t : List A)
        → get_elem? s.workers i ≡ some (taken t)
        → Step s (record s {
          workers = set s.workers i (running t t []);
          active_threads = suc s.active_threads;
        })
    access_tag :
        (i : ℕ) (t : List A) (tag : A) (tags : List A) (results : List Bool) (c : LruCache A)
        (result : Bool)
        → get_elem? s.workers i ≡ some (running t (tag ∷ tags) results)
        → access dec s.cache tag ≡ some (c, result)
        → Step s (record s {
          workers = set s.workers i (running t tags (results ++ result ∷ []));
          cache = c;
          accessed = s.accessed ++ tag ∷ [];
        })
    set_value :
        (i : ℕ) (t : List A) (results : List Bool)
        → get_elem? s.workers i ≡ some (running t [] results)
        → Step s (record s {
          workers = set s.workers i counting;
          finished = s.finished ++ (t, results) ∷ [];
        })
    fetch_sub :
        (i : ℕ)
        → get_elem? s.workers i ≡ some counting
        → Step s
            (record s { workers = set s.workers i waiting; active_threads = s.active_threads - 1 })
    worker_return :
        (i : ℕ)
        → get_elem? s.workers i ≡ some waiting
        → s.stop ≡ true
        → s.tasks ≡ []
        → Step s (record s { workers = set s.workers i returned })
    stop_pool : Step s (record s { stop = true })

  unfoldable pub init : ℕ → ℕ → Pool
  unfolding Lru.init
  init num_threads capacity = record {
    workers = copies num_threads waiting;
    tasks = [];
    stop = false;
    active_threads = 0;
    cache = Lru.init capacity;
    enqueued = [];
    started = [];
    finished = [];
    accessed = [];
  }

  pub data Reach (num_threads capacity : ℕ) : Pool → Type 0 where
    start : Reach num_threads capacity (init num_threads capacity)
    later : {s t : Pool} → Reach num_threads capacity s → Step s t → Reach num_threads capacity t
