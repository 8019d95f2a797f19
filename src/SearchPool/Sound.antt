-- ===== src/SearchPool/Sound.antt =====
-- The invariant of the pool of include/qvcache/search_thread_pool.h holds in every state that it
-- reaches.
mod Weights
mod Defs
mod Moves
pub use Weights.*
pub use Defs.*
pub use Moves.{busy-Called, known-zero}
use Moves.*
use mathlib.Core.Bool.{true≢false}
use qvcache.Common.{
  ℕ, zero, suc, ◌+◌, ◌-◌, ◌%◌, ◌^◌, ◌≤◌, ◌<◌, min, List, [], ◌∷◌, Bool, true, false, some,
  get_elem?, set, length, total, ◌≡◌, ◌≢◌, refl, sym, ap, ◌∙◌, arith, inl, inr,
}
use qvcache.SearchPool.{
  Worker, looking, woken, fetching, running, leaving, returned, Caller, outside, own_job, joining,
  Pool, next_epoch, Step, parallel_for, own_returns, own_throws, joins, destroy, load_epoch,
  stop_asleep, stop_woken, load_job, no_job, fetch_job, no_more_jobs, job_returns, job_throws,
  arrive, init, Reach, start, later,
}

next_epoch-ne : (e : ℕ) → e < 2 ^ 32 → e ≢ next_epoch e
next_epoch-ne e h x = omega arith

next_epoch-lt : (e : ℕ) → next_epoch e < 2 ^ 32
next_epoch-lt e = omega arith

init-Sound : (thread_count : ℕ) → Sound (init thread_count)
unfolding init
init-Sound thread_count =
    let (gone_none, at_rest) = copies_at_rest thread_count in
    record {
      shut = λ e. absurd (true≢false (sym e));
      live = λ _. record {
        epoch = omega arith;
        gone_none = gone_none;
        arrived = sym at_rest;
        known = rested_astray 0 0 0 _ at_rest;
        quiet = λ _. refl;
        called = λ e. absurd (true≢false (sym e));
      };
    }

-- A call begins: every worker has seen the last epoch and none the new one.
parallel_for-Live :
    (s : Pool) (n : ℕ)
    → Live s
    → s.caller ≡ outside
    → 2 ≤ n
    → 0 < length s.workers
    → Live (record s {
      error = false;
      next = 1;
      arrived = length s.workers;
      job_n = n;
      job = true;
      epoch = next_epoch s.epoch;
      caller = own_job;
      ran = [];
      thrown = [];
    })
parallel_for-Live s n h c two threads =
    let at_rest = sym h.arrived ∙ h.quiet (ap in_call c) in
    let (all_pending, all_fresh) =
      rested s.epoch (next_epoch s.epoch) s.workers (next_epoch-ne s.epoch h.epoch) h.gone_none
        at_rest in
    record {
      epoch = next_epoch-lt s.epoch;
      gone_none = h.gone_none;
      arrived = sym all_pending;
      known = rested_astray s.epoch (next_epoch s.epoch) n s.workers at_rest;
      quiet = λ e. absurd (true≢false e);
      called = λ _. record {
        job = refl;
        threads = threads;
        jobs = two;
        begun = omega arith;
        once = λ f. omega (
          arith,
          held-pending s.epoch f s.workers at_rest,
          ap (λ k. total f (ids k)) (min_one n two),
        );
        no_error = λ _. refl;
        staying = λ _. inr all_fresh;
      };
    }
  where
    min_one : (n : ℕ) → 2 ≤ n → min 1 n ≡ 1
    min_one n h = omega arith

own_returns-Live :
    (s : Pool) → Live s → s.caller ≡ own_job → Live (record s { caller = joining; ran = 0 ∷ s.ran })
own_returns-Live s h c =
    let called = h.called (ap in_call c) in
    record {
      epoch = h.epoch;
      gone_none = h.gone_none;
      arrived = h.arrived;
      known = h.known;
      quiet = λ e. absurd (true≢false e);
      called = λ _. record {
        job = called.job;
        threads = called.threads;
        jobs = called.jobs;
        begun = called.begun;
        once = λ f. omega (arith, called.once f, ap (own f) c);
        no_error = called.no_error;
        staying = called.staying;
      };
    }

own_throws-Live :
    (s : Pool)
    → Live s
    → s.caller ≡ own_job
    → Live (record s { caller = joining; error = true; thrown = 0 ∷ s.thrown })
own_throws-Live s h c =
    let called = h.called (ap in_call c) in
    record {
      epoch = h.epoch;
      gone_none = h.gone_none;
      arrived = h.arrived;
      known = h.known;
      quiet = λ e. absurd (true≢false e);
      called = λ _. record {
        job = called.job;
        threads = called.threads;
        jobs = called.jobs;
        begun = called.begun;
        once = λ f. omega (arith, called.once f, ap (own f) c);
        no_error = λ e. absurd (true≢false e);
        staying = λ e. absurd (true≢false e);
      };
    }

joins-Live :
    (s : Pool)
    → Live s
    → s.arrived ≡ 0
    → Live (record s { caller = outside; job = false; error = false })
joins-Live s h z = record {
  epoch = h.epoch;
  gone_none = h.gone_none;
  arrived = h.arrived;
  known = h.known;
  quiet = λ _. z;
  called = λ e. absurd (true≢false (sym e));
}

pub Step-Sound : (s s' : Pool) → Step s s' → Sound s → Sound s'
Step-Sound s s' (parallel_for n c g two threads) h = record {
  shut = λ e. absurd (true≢false (sym e ∙ g));
  live = λ _. parallel_for-Live s n (h.live g) c two threads;
}
Step-Sound s s' (own_returns c) h = record {
  shut = λ e. absurd (true≢false (ap in_call (sym c) ∙ h.shut e));
  live = λ g. own_returns-Live s (h.live g) c;
}
Step-Sound s s' (own_throws c) h = record {
  shut = λ e. absurd (true≢false (ap in_call (sym c) ∙ h.shut e));
  live = λ g. own_throws-Live s (h.live g) c;
}
Step-Sound s s' (joins c z) h = record { shut = λ _. refl; live = λ g. joins-Live s (h.live g) z }
Step-Sound s s' (destroy c g) h = record {
  shut = λ _. ap in_call c;
  live = λ e. absurd (true≢false e);
}
Step-Sound s s' (load_epoch i seen w ne) h = record {
  shut = h.shut;
  live = λ g. load_epoch-Live s i seen (h.live g) w ne;
}
Step-Sound s s' (stop_asleep i seen w e stopped) h = record {
  shut = h.shut;
  live = λ g. absurd (true≢false (sym stopped ∙ g));
}
Step-Sound s s' (stop_woken i gen w stopped) h = record {
  shut = h.shut;
  live = λ g. absurd (true≢false (sym stopped ∙ g));
}
Step-Sound s s' (load_job i gen w g j) h = record {
  shut = h.shut;
  live = λ g. load_job-Live s i gen (h.live g) w;
}
Step-Sound s s' (no_job i gen w going j) h =
    let (c, called) = busy-Called s i (woken gen) (h.live going) w (omega arith) in
    absurd (true≢false (sym called.job ∙ j))
Step-Sound s s' (fetch_job i seen n w l) h = record {
  shut = h.shut;
  live = λ g. fetch_job-Live s i seen n (h.live g) w l;
}
Step-Sound s s' (no_more_jobs i seen n w l) h = record {
  shut = h.shut;
  live = λ g. no_more_jobs-Live s i seen n (h.live g) w l;
}
Step-Sound s s' (job_returns i seen n id w) h = record {
  shut = h.shut;
  live = λ g. job_returns-Live s i seen n id (h.live g) w;
}
Step-Sound s s' (job_throws i seen n id w) h = record {
  shut = h.shut;
  live = λ g. job_throws-Live s i seen n id (h.live g) w;
}
Step-Sound s s' (arrive i seen w) h = record {
  shut = h.shut;
  live = λ g. arrive-Live s i seen (h.live g) w;
}

pub Reach-Sound : (thread_count : ℕ) (s : Pool) → Reach thread_count s → Sound s
Reach-Sound thread_count s start = init-Sound thread_count
Reach-Sound thread_count s (later r st) = Step-Sound _ s st (Reach-Sound thread_count _ r)
