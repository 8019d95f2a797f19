-- ===== src/InsertPool.antt =====
-- The threads of src/insert_thread_pool.cpp: workers that take tasks from a queue, callers of
-- `wait_idle`, and the destructor, interleaved in any order. A worker's wait on `cv` is one step,
-- which is taken when its condition holds: the condition changes under the mutex only. The wait on
-- `idle_cv` is in steps, since `inflight` falls without the mutex; wake-ups without a notification
-- are left out. Nobody submits a task to a pool that is being destroyed.
pub mod Sound
pub mod Finished
pub mod Drain
pub mod Lost
use qvcache.Common.{
  ℕ, zero, suc, ◌-◌, ◌==◌, ◌&&◌, List, [], ◌∷◌, ◌++◌, map, Bool, true, false, get_elem?, set, ◌≡◌,
  some, length,
}

abbrev pub copies {ℓ} : {A : Type ℓ} → ℕ → A → List A
copies zero x = []
copies (suc n) x = x ∷ copies n x

module _ (Task : Type 0) where
  -- Where a worker stands: in the wait, in a task, before `fetch_sub`, before `notify_all`, or at
  -- its end.
  pub data Worker : Type 0 where
    waiting : Worker
    running : Task → Worker
    counting : Worker
    notifying : Worker
    returned : Worker

  -- A caller of `wait_idle`: elsewhere, before the test of the condition, about to sleep with the
  -- mutex held, or asleep.
  pub data Caller : Type 0 where
    elsewhere : Caller
    testing : Caller
    parking : Caller
    asleep : Caller

  -- What was submitted, started and finished so far is kept beside the pool.
  pub record Pool : Type 0 where
    pub tasks : List Task
    pub stop : Bool
    pub inflight : ℕ
    pub workers : List Worker
    pub callers : List Caller
    pub locked : Bool  -- a caller about to sleep holds the mutex
    pub submitted : List Task
    pub started : List Task
    pub finished : List Task

  abbrev pub no_tasks : List Task → Bool
  no_tasks [] = true
  no_tasks (t ∷ ts) = false

  -- The condition that `wait_idle` waits for.
  unfoldable pub is_idle : Pool → Bool
  is_idle s = no_tasks s.tasks && s.inflight == 0

  unfoldable pub wake : Caller → Caller
  wake asleep = testing
  wake elsewhere = elsewhere
  wake testing = testing
  wake parking = parking

  pub data Step (s : Pool) : Pool → Type 0 where
    submit :
        (t : Task)
        → s.locked ≡ false
        → s.stop ≡ false
        → Step s (record s { tasks = s.tasks ++ t ∷ []; submitted = s.submitted ++ t ∷ [] })
    take_task :
        (i : ℕ) (t : Task) (ts : List Task)
        → s.locked ≡ false
        → get_elem? s.workers i ≡ some waiting
        → s.tasks ≡ t ∷ ts
        → Step s (record s {
          tasks = ts;
          inflight = suc s.inflight;
          workers = set s.workers i (running t);
          started = s.started ++ t ∷ [];
        })
    finish :
        (i : ℕ) (t : Task)
        → get_elem? s.workers i ≡ some (running t)
        → Step s (record s { workers = set s.workers i counting; finished = s.finished ++ t ∷ [] })
    fetch_sub :
        (i : ℕ)
        → get_elem? s.workers i ≡ some counting
        → Step s (record s { inflight = s.inflight - 1; workers = set s.workers i notifying })
    notify_all :
        (i : ℕ)
        → get_elem? s.workers i ≡ some notifying
        → Step s (record s { workers = set s.workers i waiting; callers = map wake s.callers })
    worker_return :
        (i : ℕ)
        → s.locked ≡ false
        → get_elem? s.workers i ≡ some waiting
        → s.stop ≡ true
        → s.tasks ≡ []
        → Step s (record s { workers = set s.workers i returned })
    call_wait_idle :
        (j : ℕ)
        → get_elem? s.callers j ≡ some elsewhere
        → Step s (record s { callers = set s.callers j testing })
    wait_returns :
        (j : ℕ)
        → s.locked ≡ false
        → get_elem? s.callers j ≡ some testing
        → is_idle s ≡ true
        → Step s (record s { callers = set s.callers j elsewhere })
    wait_again :
        (j : ℕ)
        → s.locked ≡ false
        → get_elem? s.callers j ≡ some testing
        → is_idle s ≡ false
        → Step s (record s { callers = set s.callers j parking; locked = true })
    sleep :
        (j : ℕ)
        → get_elem? s.callers j ≡ some parking
        → Step s (record s { callers = set s.callers j asleep; locked = false })
    shut_down : s.locked ≡ false → Step s (record s { stop = true })

  -- The pool as it is constructed, with its threads and with the callers to come.
  unfoldable pub init : ℕ → ℕ → Pool
  init thread_count callers = record {
    tasks = [];
    stop = false;
    inflight = 0;
    workers = copies thread_count waiting;
    callers = copies callers elsewhere;
    locked = false;
    submitted = [];
    started = [];
    finished = [];
  }

  pub data Steps (s : Pool) : Pool → Type 0 where
    stay : Steps s s
    later : {t u : Pool} → Steps s t → Step t u → Steps s u

  abbrev pub Reach : ℕ → ℕ → Pool → Type 0
  Reach thread_count callers s = Steps (init thread_count callers) s
