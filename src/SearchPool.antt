-- ===== src/SearchPool.antt =====
-- The workers of include/qvcache/search_thread_pool.h and the thread in `parallel_for`, interleaved
-- in any order. The stores before the new epoch are one step: no worker reads what they write while
-- it waits for the epoch. So are the test of the stop and the loads of the job: nothing changes these
-- while a worker has not arrived. A sleep on the futex ends at any time, and is part of the wait for
-- the epoch. `call_mu_` admits one caller at a time.
pub mod Sound
pub mod Once
pub mod Returns
use qvcache.Common.{
  ℕ, zero, suc, ◌+◌, ◌-◌, ◌%◌, ◌^◌, ◌≤◌, ◌<◌, List, [], ◌∷◌, ◌++◌, Bool, true, false, some,
  get_elem?, set, length, ◌≡◌, ◌≢◌,
}
use qvcache.InsertPool.{copies}

-- A worker: at the wait with the epoch it has seen, before the test of the stop, before `fetch_add`
-- with its copy of the number of jobs, in a job, before `fetch_sub`, or at its end.
pub data Worker : Type 0 where
  looking : ℕ → Worker
  woken : ℕ → Worker
  fetching : ℕ → ℕ → Worker
  running : ℕ → ℕ → ℕ → Worker
  leaving : ℕ → Worker
  returned : Worker

-- The caller: not in `parallel_for`, in job 0, or waiting for the workers.
pub data Caller : Type 0 where
  outside : Caller
  own_job : Caller
  joining : Caller

-- Which jobs of the call have returned, and which have thrown, is kept beside the pool.
pub record Pool : Type 0 where
  pub workers : List Worker
  pub error : Bool
  pub job : Bool  -- the pointer to the function is set
  pub job_n : ℕ
  pub next : ℕ
  pub arrived : ℕ
  pub epoch : ℕ
  pub stop : Bool
  pub caller : Caller
  pub ran : List ℕ
  pub thrown : List ℕ

-- `epoch_.fetch_add(1)` on a 32-bit number.
abbrev pub next_epoch : ℕ → ℕ
next_epoch e = (e + 1) % 2 ^ 32

-- A call with one job, or without workers, runs its jobs in order and is no step here.
pub data Step (s : Pool) : Pool → Type 0 where
  parallel_for :
      (n : ℕ)
      → s.caller ≡ outside
      → s.stop ≡ false
      → 2 ≤ n
      → 0 < length s.workers
      → Step s (record s {
        error = false;
        next = 1;
        arrived = length s.workers;
        job_n = n;
        job = true;
        epoch = next_epoch s.epoch;
        caller = own_job;
        ran = [];
        thrown = [];
      })
  own_returns : s.caller ≡ own_job → Step s (record s { caller = joining; ran = 0 ∷ s.ran })
  own_throws :
      s.caller ≡ own_job
      → Step s (record s { caller = joining; error = true; thrown = 0 ∷ s.thrown })
  joins :
      s.caller ≡ joining
      → s.arrived ≡ 0
      → Step s (record s { caller = outside; job = false; error = false })
  destroy :
      s.caller ≡ outside
      → s.stop ≡ false
      → Step s (record s { stop = true; epoch = next_epoch s.epoch })
  load_epoch :
      (i seen : ℕ)
      → get_elem? s.workers i ≡ some (looking seen)
      → seen ≢ s.epoch
      → Step s (record s { workers = set s.workers i (woken s.epoch) })
  stop_asleep :
      (i seen : ℕ)
      → get_elem? s.workers i ≡ some (looking seen)
      → seen ≡ s.epoch
      → s.stop ≡ true
      → Step s (record s { workers = set s.workers i returned })
  stop_woken :
      (i gen : ℕ)
      → get_elem? s.workers i ≡ some (woken gen)
      → s.stop ≡ true
      → Step s (record s { workers = set s.workers i returned })
  load_job :
      (i gen : ℕ)
      → get_elem? s.workers i ≡ some (woken gen)
      → s.stop ≡ false
      → s.job ≡ true
      → Step s (record s { workers = set s.workers i (fetching gen s.job_n) })
  no_job :
      (i gen : ℕ)
      → get_elem? s.workers i ≡ some (woken gen)
      → s.stop ≡ false
      → s.job ≡ false
      → Step s (record s { workers = set s.workers i (leaving gen) })
  fetch_job :
      (i seen n : ℕ)
      → get_elem? s.workers i ≡ some (fetching seen n)
      → s.next < n
      → Step s (record s { workers = set s.workers i (running seen n s.next); next = suc s.next })
  no_more_jobs :
      (i seen n : ℕ)
      → get_elem? s.workers i ≡ some (fetching seen n)
      → n ≤ s.next
      → Step s (record s { workers = set s.workers i (leaving seen); next = suc s.next })
  job_returns :
      (i seen n id : ℕ)
      → get_elem? s.workers i ≡ some (running seen n id)
      → Step s (record s { workers = set s.workers i (fetching seen n); ran = id ∷ s.ran })
  job_throws :
      (i seen n id : ℕ)
      → get_elem? s.workers i ≡ some (running seen n id)
      → Step s (record s {
        workers = set s.workers i (leaving seen);
        error = true;
        thrown = id ∷ s.thrown;
      })
  arrive :
      (i seen : ℕ)
      → get_elem? s.workers i ≡ some (leaving seen)
      → Step s (record s { workers = set s.workers i (looking seen); arrived = s.arrived - 1 })

unfoldable pub init : ℕ → Pool
init thread_count = record {
  workers = copies thread_count (looking 0);
  error = false;
  job = false;
  job_n = 0;
  next = 0;
  arrived = 0;
  epoch = 0;
  stop = false;
  caller = outside;
  ran = [];
  thrown = [];
}

pub data Reach (thread_count : ℕ) : Pool → Type 0 where
  start : Reach thread_count (init thread_count)
  later : {s t : Pool} → Reach thread_count s → Step s t → Reach thread_count t
