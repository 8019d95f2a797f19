-- ===== src/InsertPool/Lost.antt =====
-- A notification of src/insert_thread_pool.cpp can come between the test of the condition of
-- `wait_idle` and the sleep, since `inflight` falls and `notify_all` is called without the mutex.
use qvcache.Common.{
  ℕ, zero, suc, [], ◌∷◌, ◌++◌, true, false, total, total-term, ◌≡◌, refl, sym, ◌∙◌, arith, ◌⊎◌, inl,
  inr,
}
use mathlib.Core.List.{cons≢nil}
use mathlib.Core.Bool.{true≢false}
use qvcache.InsertPool.{
  waiting, running, counting, notifying, Caller, elsewhere, testing, parking, asleep, Pool, is_idle,
  wake, Step, submit, take_task, finish, fetch_sub, notify_all, worker_return, call_wait_idle,
  wait_returns, wait_again, sleep, shut_down, copies, init, stay, later, Reach,
}
use qvcache.InsertPool.Finished.{AllFinished}
use qvcache.InsertPool.Drain.{ahead}

module _ (Task : Type 0) where
  abbrev awake : Caller Task → ℕ
  awake asleep = 0
  awake elsewhere = 1
  awake testing = 1
  awake parking = 1

  -- Only a new task or the destructor gives a step.
  abbrev pub Stuck : Pool Task → Type 0
  Stuck s =
      (s' : Pool Task)
      → Step Task s s'
      → ((t : Task) × (s'.submitted ≡ s.submitted ++ t ∷ [])) ⊎ (s'.stop ≡ true)

  quiet-Stuck :
      (s : Pool Task)
      → s.stop ≡ false
      → s.tasks ≡ []
      → total (ahead Task) s.workers ≡ 0
      → total awake s.callers ≡ 0
      → Stuck s
  quiet-Stuck s g e w c s' (submit t free going) = inl (t, refl)
  quiet-Stuck s g e w c s' (shut_down free) = inr refl
  quiet-Stuck s g e w c s' (take_task i t ts free at q) = absurd (cons≢nil (sym q ∙ e))
  quiet-Stuck s g e w c s' (finish i t at) =
      absurd (omega (arith, w, total-term (ahead Task) s.workers i (running t) at))
  quiet-Stuck s g e w c s' (fetch_sub i at) =
      absurd (omega (arith, w, total-term (ahead Task) s.workers i counting at))
  quiet-Stuck s g e w c s' (notify_all i at) =
      absurd (omega (arith, w, total-term (ahead Task) s.workers i notifying at))
  quiet-Stuck s g e w c s' (worker_return i free at stopped empty) =
      absurd (true≢false (sym stopped ∙ g))
  quiet-Stuck s g e w c s' (call_wait_idle j at) =
      absurd (omega (arith, c, total-term awake s.callers j elsewhere at))
  quiet-Stuck s g e w c s' (wait_returns j free at idle) =
      absurd (omega (arith, c, total-term awake s.callers j testing at))
  quiet-Stuck s g e w c s' (wait_again j free at idle) =
      absurd (omega (arith, c, total-term awake s.callers j testing at))
  quiet-Stuck s g e w c s' (sleep j at) =
      absurd (omega (arith, c, total-term awake s.callers j parking at))

  ahead-copies : (n : ℕ) → total (ahead Task) (copies n waiting) ≡ 0
  ahead-copies zero = refl
  ahead-copies (suc n) = omega (arith, ahead-copies n)

  -- The pool with its task done and its caller asleep.
  abbrev lost : ℕ → Task → Pool Task
  lost n t = record {
    tasks = [];
    stop = false;
    inflight = 0;
    workers = waiting ∷ copies n waiting;
    callers = asleep ∷ [];
    locked = false;
    submitted = t ∷ [];
    started = t ∷ [];
    finished = t ∷ [];
  }

  lost-Reach : (n : ℕ) (t : Task) → Reach Task (suc n) 1 (lost n t)
  unfolding init is_idle wake
  lost-Reach n t =
      later
        (later
          (later
            (later
              (later
                (later (later (later stay (submit t refl refl)) (take_task 0 t [] refl refl refl))
                  (call_wait_idle 0 refl))
                (wait_again 0 refl refl refl))
              (finish 0 t refl))
            (fetch_sub 0 refl))
          (notify_all 0 refl))
        (sleep 0 refl)

  -- With any number of threads and any task, a caller of `wait_idle` can end up asleep while its
  -- condition holds and the one task has finished; then only a new task or the destructor gives any
  -- step, wake-ups without a notification left out.
  pub lost_wakeup :
      (n : ℕ) (t : Task)
      → (s : Pool Task) × Reach Task (suc n) 1 s
        × (s.callers ≡ asleep ∷ [])
        × (is_idle Task s ≡ true)
        × AllFinished Task s
        × Stuck s
  unfolding is_idle
  lost_wakeup n t = (
    lost n t,
    lost-Reach n t,
    refl,
    refl,
    λ f. refl,
    quiet-Stuck (lost n t) refl refl (omega (arith, ahead-copies n)) (omega arith),
  )
