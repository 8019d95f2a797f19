-- ===== src/InsertPool/Finished.antt =====
-- The pool of src/insert_thread_pool.cpp has finished its tasks when a wait
-- for it returns.
use mathlib.Core.Bool.{true≢false}
use qvcache.Common.{
  ℕ, zero, suc, ◌<◌, ◌==◌, ◌&&◌, List, [], ◌∷◌, ◌++◌, true, total, total-append, ◌≡◌, refl, sym, ap,
  ◌∙◌, subst, arith,
}
use qvcache.InsertPool.{
  Worker, waiting, running, counting, notifying, returned, Pool, no_tasks, is_idle, copies, Reach,
}
use qvcache.InsertPool.Sound.{held, counted, gone, Sound, Reach-Sound}

module _ (Task : Type 0) where
  -- Everything that was submitted has finished, each task as often as it was submitted.
  abbrev pub AllFinished : Pool Task → Type 0
  AllFinished s = (f : Task → ℕ) → total f s.submitted ≡ total f s.finished

  held-counted :
      (f : Task → ℕ) (ws : List (Worker Task))
      → total (counted Task) ws ≡ 0
      → total (held Task f) ws ≡ 0
  held-counted f [] h = refl
  held-counted f (waiting ∷ ws) h = omega (arith, held-counted f ws (omega (arith, h)))
  held-counted f (running t ∷ ws) h = absurd (omega (arith, h))
  held-counted f (counting ∷ ws) h = absurd (omega (arith, h))
  held-counted f (notifying ∷ ws) h = omega (arith, held-counted f ws (omega (arith, h)))
  held-counted f (returned ∷ ws) h = omega (arith, held-counted f ws (omega (arith, h)))

  -- With no task queued and none in a worker.
  pub quiet-AllFinished :
      (s : Pool Task)
      → Sound Task s
      → s.tasks ≡ []
      → total (counted Task) s.workers ≡ 0
      → AllFinished s
  quiet-AllFinished s h e z f =
      ap (total f) (h.order ∙ ap (λ l. s.started ++ l) e)
      ∙ omega (arith, total-append f s.started [], h.once f, held-counted f s.workers z)

  no_tasks-parts :
      (ts : List Task) (n : ℕ) → (no_tasks Task ts && n == 0) ≡ true → (ts ≡ []) × (n ≡ 0)
  no_tasks-parts [] n h = (refl, ground (arith, h))
  no_tasks-parts (t ∷ ts) n h = absurd (true≢false (sym h))

  is_idle-parts : (s : Pool Task) → is_idle Task s ≡ true → (s.tasks ≡ []) × (s.inflight ≡ 0)
  unfolding is_idle
  is_idle-parts s h = no_tasks-parts s.tasks s.inflight h

  -- When the condition of `wait_idle` holds, every task that was submitted before has finished, and
  -- none runs.
  pub wait_idle-AllFinished :
      (thread_count callers : ℕ) (s : Pool Task)
      → Reach Task thread_count callers s
      → is_idle Task s ≡ true
      → AllFinished s
  wait_idle-AllFinished thread_count callers s r h =
      let (e, z) = is_idle-parts s h in
      let sound = Reach-Sound Task thread_count callers s r in
      quiet-AllFinished s sound e (sym sound.inflight ∙ z)

  counted-returned : (n : ℕ) → total (counted Task) (copies n returned) ≡ 0
  counted-returned zero = refl
  counted-returned (suc n) = omega (arith, counted-returned n)

  -- When the destructor has joined the threads, at least one, every task that was submitted has
  -- finished, and the queue is empty.
  pub join-AllFinished :
      (thread_count callers : ℕ) (s : Pool Task)
      → Reach Task (suc thread_count) callers s
      → s.workers ≡ copies (suc thread_count) returned
      → (s.tasks ≡ []) × AllFinished s
  join-AllFinished thread_count callers s r e =
      let sound = Reach-Sound Task (suc thread_count) callers s r in
      let q = (sound.drained (subst (λ ws. 0 < total (gone Task) ws) (sym e) (omega arith))).1 in
      (
        q,
        quiet-AllFinished s sound q
            (ap (total (counted Task)) e ∙ counted-returned (suc thread_count)),
      )
