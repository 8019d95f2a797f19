-- ===== src/Tests/SearchPool.antt =====
-- A call of `parallel_for` of include/qvcache/search_thread_pool.h with two jobs and one worker.
use qvcache.Common.{[], ◌∷◌, true, false, refl, arith}
use qvcache.SearchPool.{
  looking, own_job, joining, Pool, parallel_for, own_returns, load_epoch, load_job, fetch_job,
  no_more_jobs, job_returns, arrive, init, Reach, start, later,
}
use qvcache.SearchPool.Returns.{Returns, Reach-Returns}
use qvcache.SearchPool.Once.{RanOnce, joins-RanOnce}

-- Both jobs are done.
abbrev both : Pool
both = record {
  workers = looking 1 ∷ [];
  error = false;
  job = true;
  job_n = 2;
  next = 3;
  arrived = 0;
  epoch = 1;
  stop = false;
  caller = joining;
  ran = 1 ∷ 0 ∷ [];
  thrown = [];
}

both-Reach : Reach 1 both
unfolding init
both-Reach =
    later
      (later
        (later
          (later
            (later
              (later
                (later (later start (parallel_for 2 refl refl (omega arith) (omega arith)))
                  (load_epoch 0 0 refl (λ e. absurd (omega (arith, e)))))
                (load_job 0 1 refl refl refl))
              (own_returns refl))
            (fetch_job 0 1 2 refl (omega arith)))
          (job_returns 0 1 2 1 refl))
        (no_more_jobs 0 1 2 refl (omega arith)))
      (arrive 0 1 refl)

joins-RanOnce_example : RanOnce both
joins-RanOnce_example = joins-RanOnce 1 both both-Reach refl refl

-- The call has just begun.
abbrev begun : Pool
begun = record {
  workers = looking 0 ∷ [];
  error = false;
  job = true;
  job_n = 2;
  next = 1;
  arrived = 1;
  epoch = 1;
  stop = false;
  caller = own_job;
  ran = [];
  thrown = [];
}

begun-Reach : Reach 1 begun
unfolding init
begun-Reach = later start (parallel_for 2 refl refl (omega arith) (omega arith))

Reach-Returns_example : Returns begun
Reach-Returns_example = Reach-Returns 1 begun begun-Reach refl
