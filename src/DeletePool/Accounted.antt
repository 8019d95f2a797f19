-- ===== src/DeletePool/Accounted.antt =====
-- No task of src/delete_consolidate_thread_pool.cpp is lost or run twice.
use mathlib.Core.Bool.{true≢false}
use mathlib.Core.List.{cons≢nil}
use qvcache.Common.{
  ℕ, zero, suc, ◌+◌, ◌<◌, [], ◌∷◌, true, total, total-append, total-set, ◌≡◌, refl, sym, ap, ◌∙◌,
  subst, arith,
}
use qvcache.InsertPool.{copies}
use qvcache.DeletePool.{
  Worker, waiting, running, returned, Pool, Step, submit, take_task, finish, worker_return,
  shut_down, init, Reach, start, later,
}

module _ (Task : Type 0) where
  -- A weight of tasks, on the task that a worker is running.
  abbrev pub held : (Task → ℕ) → Worker Task → ℕ
  held f (running t) = f t
  held f waiting = 0
  held f returned = 0

  abbrev pub gone : Worker Task → ℕ
  gone returned = 1
  gone waiting = 0
  gone (running t) = 0

  -- Each task that was submitted is queued, is run by one worker or has finished, and a worker
  -- returns after the stop and the last task.
  pub record Accounted (s : Pool Task) : Type 0 where
    pub once :
        (f : Task → ℕ)
        → total f s.submitted ≡ total f s.tasks + total (held f) s.workers + total f s.finished
    pub drained : 0 < total gone s.workers → (s.stop ≡ true) × (s.tasks ≡ [])

  at_start : (n : ℕ) (w : Worker Task → ℕ) → w waiting ≡ 0 → total w (copies n waiting) ≡ 0
  at_start zero w e = refl
  at_start (suc n) w e = omega (arith, at_start n w e)

  at_end : (n : ℕ) (f : Task → ℕ) → total (held f) (copies n returned) ≡ 0
  at_end zero f = refl
  at_end (suc n) f = omega (arith, at_end n f)

  Step-Accounted : (s s' : Pool Task) → Step Task s s' → Accounted s → Accounted s'
  Step-Accounted s s' (submit t going) h = record {
    once = λ f.
        omega
          (arith, h.once f, total-append f s.tasks (t ∷ []), total-append f s.submitted (t ∷ []));
    drained = λ g. absurd (true≢false (sym (h.drained g).0 ∙ going));
  }
  Step-Accounted s s' (take_task i t ts w e) h = record {
    once = λ f.
        omega (arith, h.once f, ap (total f) e, total-set (held f) s.workers i _ (running t) w);
    drained = λ g. absurd (
        cons≢nil
          (sym e ∙ (h.drained (omega (arith, g, total-set gone s.workers i _ (running t) w))).1));
  }
  Step-Accounted s s' (finish i t w) h = record {
    once = λ f. omega (
      arith,
      h.once f,
      total-append f s.finished (t ∷ []),
      total-set (held f) s.workers i _ waiting w,
    );
    drained = λ g. h.drained (omega (arith, g, total-set gone s.workers i _ waiting w));
  }
  Step-Accounted s s' (worker_return i w stopped empty) h = record {
    once = λ f. omega (arith, h.once f, total-set (held f) s.workers i _ returned w);
    drained = λ g. (stopped, empty);
  }
  Step-Accounted s s' shut_down h = record { once = h.once; drained = λ g. (refl, (h.drained g).1) }

  Reach-Accounted : (thread_count : ℕ) (s : Pool Task) → Reach Task thread_count s → Accounted s
  unfolding init
  Reach-Accounted thread_count s start = record {
    once = λ f. omega (arith, at_start thread_count (held f) refl);
    drained = λ g. absurd (omega (arith, g, at_start thread_count gone refl));
  }
  Reach-Accounted thread_count s (later r st) =
      Step-Accounted _ s st (Reach-Accounted thread_count _ r)

  -- When the destructor has joined the threads, at least one, every task that was submitted has
  -- finished, each as often as it was submitted.
  pub join-finished :
      (thread_count : ℕ) (s : Pool Task)
      → Reach Task (suc thread_count) s
      → s.workers ≡ copies (suc thread_count) returned
      → (f : Task → ℕ) → total f s.submitted ≡ total f s.finished
  join-finished thread_count s r e f =
      let h = Reach-Accounted (suc thread_count) s r in
      let (stopped, empty) = h.drained (subst (λ ws. 0 < total gone ws) (sym e) (omega arith)) in
      omega
        (arith, h.once f, ap (total f) empty, ap (total (held f)) e, at_end (suc thread_count) f)
