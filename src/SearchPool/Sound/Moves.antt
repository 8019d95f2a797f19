-- ===== src/SearchPool/Sound/Moves.antt =====
-- What a step of one worker of include/qvcache/search_thread_pool.h keeps.
use mathlib.Core.Bool.{true≢false}
use qvcache.Common.{
  ℕ, suc, ◌+◌, ◌-◌, ◌≤◌, ◌<◌, min, List, [], ◌∷◌, Bool, true, false, some, get_elem?, set, length,
  length-set, total, total-set, total-term, ◌≡◌, ◌≢◌, refl, sym, ap, ◌∙◌, arith, Bool-cases, ◌⊎◌,
  inl, inr,
}
use qvcache.SearchPool.{Worker, looking, woken, fetching, running, leaving, Pool}
use qvcache.SearchPool.Sound.Weights.{
  late_self, late_other, late_zero, pending, astray, gone, fresh, held, in_call, ids,
}
use qvcache.SearchPool.Sound.Defs.{Called, Live}

-- A pending worker is in a call.
pub busy-Called :
    (s : Pool) (i : ℕ) (x : Worker)
    → Live s
    → get_elem? s.workers i ≡ some x
    → 0 < pending s.epoch x
    → (in_call s.caller ≡ true) × Called s
busy-Called s i x h e p = elim (Bool-cases (in_call s.caller)) [
  | inl c ↦ (c, h.called c)
  | inr c ↦
      absurd (omega (arith, p, h.quiet c, h.arrived, total-term (pending s.epoch) s.workers i x e))
]

-- A worker in a call knows it.
pub known-zero :
    (s : Pool) (i : ℕ) (x : Worker)
    → Live s
    → get_elem? s.workers i ≡ some x
    → astray s.epoch s.job_n x ≡ 0
known-zero s i x h e = omega (arith, h.known, total-term (astray s.epoch s.job_n) s.workers i x e)

-- The pool when a worker has moved, with what it changed.
abbrev pub moved : Pool → ℕ → Worker → ℕ → ℕ → Bool → List ℕ → List ℕ → Pool
moved s i y next arrived error ran thrown = record s {
  workers = set s.workers i y;
  next = next;
  arrived = arrived;
  error = error;
  ran = ran;
  thrown = thrown;
}

-- What is asked of such a move.
pub record Moves (s : Pool) (x y : Worker) (next arrived : ℕ) (error : Bool) (ran thrown : List ℕ)
    : Type 0 where
  pub busy : 0 < pending s.epoch x
  pub gone_none : gone y ≡ 0
  pub known : astray s.epoch s.job_n y ≡ 0
  pub arrives : arrived + pending s.epoch x ≡ s.arrived + pending s.epoch y
  pub once :
      (f : ℕ → ℕ)
      → total f ran + total f thrown + held f y + total f (ids (min s.next s.job_n))
        ≡ total f s.ran + total f s.thrown + held f x + total f (ids (min next s.job_n))
  pub no_error : error ≡ false → s.error ≡ false
  pub none_thrown : error ≡ false → s.thrown ≡ [] → thrown ≡ []
  pub onward : s.next ≤ next
  pub staying : error ≡ false → (s.job_n ≤ next) ⊎ (fresh s.epoch y ≡ fresh s.epoch x)

moved-staying :
    (s : Pool) (i : ℕ) (x y : Worker) (next : ℕ)
    → get_elem? s.workers i ≡ some x
    → s.next ≤ next
    → (s.job_n ≤ s.next) ⊎ (total (fresh s.epoch) s.workers ≡ length s.workers)
    → (s.job_n ≤ next) ⊎ (fresh s.epoch y ≡ fresh s.epoch x)
    → (s.job_n ≤ next) ⊎ (total (fresh s.epoch) (set s.workers i y) ≡ length (set s.workers i y))
moved-staying s i x y next e on (inl past) k = inl (omega (arith, past, on))
moved-staying s i x y next e on (inr all) (inl past) = inl past
moved-staying s i x y next e on (inr all) (inr same) = inr (
    omega (arith, all, same, total-set (fresh s.epoch) s.workers i x y e, length-set s.workers i y))

pub moved-Live :
    (s : Pool) (i : ℕ) (x y : Worker) (next arrived : ℕ) (error : Bool) (ran thrown : List ℕ)
    → Live s
    → get_elem? s.workers i ≡ some x
    → Moves s x y next arrived error ran thrown
    → Live (moved s i y next arrived error ran thrown)
moved-Live s i x y next arrived error ran thrown h e m =
    let (c, called) = busy-Called s i x h e m.busy in
    record {
      epoch = h.epoch;
      gone_none = omega (arith, h.gone_none, m.gone_none, total-set gone s.workers i x y e);
      arrived = omega (arith, h.arrived, m.arrives, total-set (pending s.epoch) s.workers i x y e);
      known = omega (arith, h.known, m.known, total-set (astray s.epoch s.job_n) s.workers i x y e);
      quiet = λ o. absurd (true≢false (sym c ∙ o));
      called = λ _. record {
        job = called.job;
        threads = omega (arith, called.threads, length-set s.workers i y);
        jobs = called.jobs;
        begun = omega (arith, called.begun, m.onward);
        once = λ f. omega (arith, called.once f, m.once f, total-set (held f) s.workers i x y e);
        no_error = λ n. m.none_thrown n (called.no_error (m.no_error n));
        staying = λ n.
            moved-staying s i x y next e m.onward (called.staying (m.no_error n)) (m.staying n);
      };
    }

pub load_epoch-Live :
    (s : Pool) (i seen : ℕ)
    → Live s
    → get_elem? s.workers i ≡ some (looking seen)
    → seen ≢ s.epoch
    → Live (record s { workers = set s.workers i (woken s.epoch) })
load_epoch-Live s i seen h e ne =
    let l = late_other s.epoch seen ne in
    moved-Live s i (looking seen) (woken s.epoch) s.next s.arrived s.error s.ran s.thrown h e
      record {
        busy = omega (arith, l);
        gone_none = refl;
        known = late_self s.epoch s.epoch refl;
        arrives = omega (arith, l);
        once = λ f. refl;
        no_error = λ n. n;
        none_thrown = λ n t. t;
        onward = omega arith;
        staying = λ n. inr (sym l);
      }

pub load_job-Live :
    (s : Pool) (i gen : ℕ)
    → Live s
    → get_elem? s.workers i ≡ some (woken gen)
    → Live (record s { workers = set s.workers i (fetching gen s.job_n) })
load_job-Live s i gen h e =
    moved-Live s i (woken gen) (fetching gen s.job_n) s.next s.arrived s.error s.ran s.thrown h e
      record {
        busy = omega arith;
        gone_none = refl;
        known = omega (arith, known-zero s i _ h e, late_self s.job_n s.job_n refl);
        arrives = refl;
        once = λ f. refl;
        no_error = λ n. n;
        none_thrown = λ n t. t;
        onward = omega arith;
        staying = λ n. inr refl;
      }

total-ids_next :
    (f : ℕ → ℕ) (next jobs : ℕ)
    → next < jobs
    → total f (ids (min (suc next) jobs)) ≡ f next + total f (ids (min next jobs))
total-ids_next f next jobs l =
    ap (λ k. total f (ids k)) (by_left l) ∙ ap (λ k. f next + total f (ids k)) (sym (left l))
  where
    by_left : next < jobs → min (suc next) jobs ≡ suc next
    by_left l = omega arith

    left : next < jobs → min next jobs ≡ next
    left l = omega arith

pub fetch_job-Live :
    (s : Pool) (i seen n : ℕ)
    → Live s
    → get_elem? s.workers i ≡ some (fetching seen n)
    → s.next < n
    → Live (record s { workers = set s.workers i (running seen n s.next); next = suc s.next })
fetch_job-Live s i seen n h e l =
    let known = known-zero s i (fetching seen n) h e in
    let n_jobs = late_zero s.job_n n (omega (arith, known)) in
    moved-Live s i (fetching seen n) (running seen n s.next) (suc s.next) s.arrived s.error s.ran
      s.thrown h e
      record {
        busy = omega arith;
        gone_none = refl;
        known = known;
        arrives = refl;
        once = λ f. omega (arith, total-ids_next f s.next s.job_n (omega (arith, l, n_jobs)));
        no_error = λ n. n;
        none_thrown = λ n t. t;
        onward = omega arith;
        staying = λ n. inr refl;
      }

pub no_more_jobs-Live :
    (s : Pool) (i seen n : ℕ)
    → Live s
    → get_elem? s.workers i ≡ some (fetching seen n)
    → n ≤ s.next
    → Live (record s { workers = set s.workers i (leaving seen); next = suc s.next })
no_more_jobs-Live s i seen n h e l =
    let known = known-zero s i (fetching seen n) h e in
    let n_jobs = late_zero s.job_n n (omega (arith, known)) in
    let past : s.job_n ≤ s.next = omega (arith, l, n_jobs) in
    moved-Live s i (fetching seen n) (leaving seen) (suc s.next) s.arrived s.error s.ran s.thrown h
      e
      record {
        busy = omega arith;
        gone_none = refl;
        known = omega (arith, known);
        arrives = refl;
        once = λ f. omega (arith, ap (λ k. total f (ids k)) (min_past s.next s.job_n past));
        no_error = λ n. n;
        none_thrown = λ n t. t;
        onward = omega arith;
        staying = λ n. inl (omega (arith, past));
      }
  where
    min_past : (next jobs : ℕ) → jobs ≤ next → min next jobs ≡ min (suc next) jobs
    min_past next jobs p = omega arith

pub job_returns-Live :
    (s : Pool) (i seen n id : ℕ)
    → Live s
    → get_elem? s.workers i ≡ some (running seen n id)
    → Live (record s { workers = set s.workers i (fetching seen n); ran = id ∷ s.ran })
job_returns-Live s i seen n id h e =
    moved-Live s i (running seen n id) (fetching seen n) s.next s.arrived s.error (id ∷ s.ran)
      s.thrown h e
      record {
        busy = omega arith;
        gone_none = refl;
        known = known-zero s i (running seen n id) h e;
        arrives = refl;
        once = λ f. omega arith;
        no_error = λ n. n;
        none_thrown = λ n t. t;
        onward = omega arith;
        staying = λ n. inr refl;
      }

pub job_throws-Live :
    (s : Pool) (i seen n id : ℕ)
    → Live s
    → get_elem? s.workers i ≡ some (running seen n id)
    → Live (record s {
      workers = set s.workers i (leaving seen);
      error = true;
      thrown = id ∷ s.thrown;
    })
job_throws-Live s i seen n id h e =
    moved-Live s i (running seen n id) (leaving seen) s.next s.arrived true s.ran (id ∷ s.thrown) h
      e
      record {
        busy = omega arith;
        gone_none = refl;
        known = omega (arith, known-zero s i (running seen n id) h e);
        arrives = refl;
        once = λ f. omega arith;
        no_error = λ n. absurd (true≢false n);
        none_thrown = λ n t. absurd (true≢false n);
        onward = omega arith;
        staying = λ n. absurd (true≢false n);
      }

pub arrive-Live :
    (s : Pool) (i seen : ℕ)
    → Live s
    → get_elem? s.workers i ≡ some (leaving seen)
    → Live (record s { workers = set s.workers i (looking seen); arrived = s.arrived - 1 })
arrive-Live s i seen h e =
    let known = known-zero s i (leaving seen) h e in
    moved-Live s i (leaving seen) (looking seen) s.next (s.arrived - 1) s.error s.ran s.thrown h e
      record {
        busy = omega arith;
        gone_none = refl;
        known = refl;
        arrives =
            omega
              (arith, known, h.arrived, total-term (pending s.epoch) s.workers i (leaving seen) e);
        once = λ f. refl;
        no_error = λ n. n;
        none_thrown = λ n t. t;
        onward = omega arith;
        staying = λ n. inr known;
      }
