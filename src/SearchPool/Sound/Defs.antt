-- ===== src/SearchPool/Sound/Defs.antt =====
-- The invariant of the pool of include/qvcache/search_thread_pool.h.
use qvcache.Common.{ℕ, ◌+◌, ◌^◌, ◌≤◌, ◌<◌, min, [], true, false, length, total, ◌≡◌, ◌⊎◌}
use qvcache.SearchPool.{Pool}
use qvcache.SearchPool.Sound.Weights.{pending, astray, gone, fresh, held, in_call, own, ids}

-- During a call every job below `next` has returned, has thrown or is in a worker or the caller,
-- each once; no error means none has thrown; and with no error the workers stay until `next` is
-- past the last job.
pub record Called (s : Pool) : Type 0 where
  pub job : s.job ≡ true
  pub threads : 0 < length s.workers
  pub jobs : 2 ≤ s.job_n
  pub begun : 1 ≤ s.next
  pub once :
      (f : ℕ → ℕ)
      → total f s.ran + total f s.thrown + total (held f) s.workers + own f s.caller
        ≡ total f (ids (min s.next s.job_n))
  pub no_error : s.error ≡ false → s.thrown ≡ []
  pub staying :
      s.error ≡ false → (s.job_n ≤ s.next) ⊎ (total (fresh s.epoch) s.workers ≡ length s.workers)

-- `arrived` counts the workers that have not left the call, and all that run know its epoch and its
-- number of jobs.
pub record Live (s : Pool) : Type 0 where
  pub epoch : s.epoch < 2 ^ 32
  pub gone_none : total gone s.workers ≡ 0
  pub arrived : s.arrived ≡ total (pending s.epoch) s.workers
  pub known : total (astray s.epoch s.job_n) s.workers ≡ 0
  pub quiet : in_call s.caller ≡ false → s.arrived ≡ 0
  pub called : in_call s.caller ≡ true → Called s

pub record Sound (s : Pool) : Type 0 where
  pub shut : s.stop ≡ true → in_call s.caller ≡ false
  pub live : s.stop ≡ false → Live s
