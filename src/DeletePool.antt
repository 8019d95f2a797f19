-- ===== src/DeletePool.antt =====
-- The threads of src/delete_consolidate_thread_pool.cpp, interleaved in any order. The condition of
-- the wait changes under the mutex only, so that the wait is one step, taken when it holds; a task is
-- its deletions, which the pool only passes on.
pub mod Accounted
use qvcache.Common.{ℕ, List, [], ◌∷◌, ◌++◌, Bool, true, false, some, get_elem?, set, ◌≡◌}
use qvcache.InsertPool.{copies}

module _ (Task : Type 0) where
  -- A worker: in the wait, in a task, or at its end.
  pub data Worker : Type 0 where
    waiting : Worker
    running : Task → Worker
    returned : Worker

  -- What was submitted and what has finished so far is kept beside the pool.
  pub record Pool : Type 0 where
    pub workers : List Worker
    pub tasks : List Task
    pub stop : Bool
    pub submitted : List Task
    pub finished : List Task

  pub data Step (s : Pool) : Pool → Type 0 where
    submit :
        (t : Task)
        → s.stop ≡ false
        → Step s (record s { tasks = s.tasks ++ t ∷ []; submitted = s.submitted ++ t ∷ [] })
    take_task :
        (i : ℕ) (t : Task) (ts : List Task)
        → get_elem? s.workers i ≡ some waiting
        → s.tasks ≡ t ∷ ts
        → Step s (record s { workers = set s.workers i (running t); tasks = ts })
    finish :
        (i : ℕ) (t : Task)
        → get_elem? s.workers i ≡ some (running t)
        → Step s (record s { workers = set s.workers i waiting; finished = s.finished ++ t ∷ [] })
    worker_return :
        (i : ℕ)
        → get_elem? s.workers i ≡ some waiting
        → s.stop ≡ true
        → s.tasks ≡ []
        → Step s (record s { workers = set s.workers i returned })
    shut_down : Step s (record s { stop = true })

  unfoldable pub init : ℕ → Pool
  init thread_count = record {
    workers = copies thread_count waiting;
    tasks = [];
    stop = false;
    submitted = [];
    finished = [];
  }

  pub data Reach (thread_count : ℕ) : Pool → Type 0 where
    start : Reach thread_count (init thread_count)
    later : {s t : Pool} → Reach thread_count s → Step s t → Reach thread_count t
