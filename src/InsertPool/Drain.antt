-- ===== src/InsertPool/Drain.antt =====
-- The pool of src/insert_thread_pool.cpp runs every task that it is given.
use mathlib.Core.List.{cons≢nil}
use qvcache.Common.{
  ℕ, zero, suc, ◌+◌, ◌*◌, ◌≤◌, ◌<◌, List, [], ◌∷◌, true, false, if◌then◌else◌, some, get_elem?,
  get_elem?-some, length, length-set, total, total-set, total-positive, total-term, ◌≡◌, refl, sym,
  ap, ◌∙◌, arith, Bool-cases, List-cases, ◌⊎◌, inl, inr, dec_lt,
}
use qvcache.InsertPool.{
  Worker, waiting, running, counting, notifying, returned, Caller, elsewhere, testing, parking,
  asleep, Pool, Step, submit, take_task, finish, fetch_sub, notify_all, worker_return,
  call_wait_idle, wait_returns, wait_again, sleep, shut_down, copies, init, Steps, stay, later,
  Reach,
}
use qvcache.InsertPool.Finished.{AllFinished, quiet-AllFinished}
use qvcache.InsertPool.Sound.{counted, gone, parks, Sound, Step-Sound, Reach-Sound}

module _ (Task : Type 0) where
  -- The steps that a worker still has to its next wait.
  abbrev pub ahead : Worker Task → ℕ
  ahead (running t) = 3
  ahead counting = 2
  ahead notifying = 1
  ahead waiting = 0
  ahead returned = 0

  -- The steps to the end of all tasks.
  abbrev pub measure : Pool Task → ℕ
  measure s = 4 * length s.tasks + total ahead s.workers + (if s.locked then 1 else 0)

  counted-ahead : (ws : List (Worker Task)) → total ahead ws ≡ 0 → total (counted Task) ws ≡ 0
  counted-ahead [] h = refl
  counted-ahead (waiting ∷ ws) h = omega (arith, counted-ahead ws (omega (arith, h)))
  counted-ahead (running t ∷ ws) h = absurd (omega (arith, h))
  counted-ahead (counting ∷ ws) h = absurd (omega (arith, h))
  counted-ahead (notifying ∷ ws) h = absurd (omega (arith, h))
  counted-ahead (returned ∷ ws) h = omega (arith, counted-ahead ws (omega (arith, h)))

  -- A step that adds no task and comes nearer to the end.
  abbrev Next : Pool Task → Type 0
  Next s =
      (s' : Pool Task) × Step Task s s'
      × (s'.submitted ≡ s.submitted)
      × (length s'.workers ≡ length s.workers)
      × (measure s' < measure s)

  next_caller :
      (s : Pool Task) (j : ℕ) (c : Caller Task)
      → s.locked ≡ true
      → get_elem? s.callers j ≡ some c
      → 0 < parks Task c
      → Next s
  next_caller s j parking l e p =
      (_, sleep j e, refl, refl, omega (arith, ap {B = ℕ} (λ b. if b then 1 else 0) l))
  next_caller s j elsewhere l e p = absurd (omega (arith, p))
  next_caller s j testing l e p = absurd (omega (arith, p))
  next_caller s j asleep l e p = absurd (omega (arith, p))

  next_worker :
      (s : Pool Task) (i : ℕ) (w : Worker Task)
      → get_elem? s.workers i ≡ some w
      → 0 < ahead w
      → Next s
  next_worker s i (running t) e p = (
    _,
    finish i t e,
    refl,
    length-set s.workers i counting,
    omega (arith, total-set ahead s.workers i _ counting e),
  )
  next_worker s i counting e p = (
    _,
    fetch_sub i e,
    refl,
    length-set s.workers i notifying,
    omega (arith, total-set ahead s.workers i _ notifying e),
  )
  next_worker s i notifying e p = (
    _,
    notify_all i e,
    refl,
    length-set s.workers i waiting,
    omega (arith, total-set ahead s.workers i _ waiting e),
  )
  next_worker s i waiting e p = absurd (omega (arith, p))
  next_worker s i returned e p = absurd (omega (arith, p))

  next_task :
      (s : Pool Task) (i : ℕ) (w : Worker Task) (t : Task) (ts : List Task)
      → Sound Task s
      → s.locked ≡ false
      → get_elem? s.workers i ≡ some w
      → s.tasks ≡ t ∷ ts
      → total ahead s.workers ≡ 0
      → Next s
  next_task s i waiting t ts h free e q z = (
    _,
    take_task i t ts free e q,
    refl,
    length-set s.workers i (running t),
    omega (arith, total-set ahead s.workers i _ (running t) e, ap length q),
  )
  next_task s i returned t ts h free e q z = absurd (
      cons≢nil
        (sym q ∙ (h.drained (omega (arith, total-term (gone Task) s.workers i returned e))).1))
  next_task s i (running u) t ts h free e q z =
      absurd (omega (arith, z, total-term ahead s.workers i (running u) e))
  next_task s i counting t ts h free e q z =
      absurd (omega (arith, z, total-term ahead s.workers i counting e))
  next_task s i notifying t ts h free e q z =
      absurd (omega (arith, z, total-term ahead s.workers i notifying e))

  -- There is a next step until all the tasks are done.
  next :
      (s : Pool Task)
      → Sound Task s
      → 0 < length s.workers
      → Next s ⊎ ((s.tasks ≡ []) × (total ahead s.workers ≡ 0))
  next s h n = elim (Bool-cases s.locked) [
    | inl l ↦
        let (j, c, e, p) =
          total-positive (parks Task) s.callers
            (omega (arith, h.owner, ap {B = ℕ} (λ b. if b then 1 else 0) l)) in
        inl (next_caller s j c l e p)
    | inr free ↦ elim (dec_lt 0 (total ahead s.workers)) [
      | yes busy ↦
          let (i, w, e, p) = total-positive ahead s.workers busy in inl (next_worker s i w e p)
      | no still ↦ elim (List-cases s.tasks) [
        | inl q ↦ inr (q, omega (arith, still))
        | inr (t, ts, q) ↦
            let (w, e) = get_elem?-some s.workers 0 n in
            inl (next_task s 0 w t ts h free e q (omega (arith, still)))
      ]
    ]
  ]

  trans-Steps : (s t u : Pool Task) → Steps Task s t → Steps Task t u → Steps Task s u
  trans-Steps s t u r stay = r
  trans-Steps s t u r (later q st) = later (trans-Steps s t _ r q) st

  -- A run that adds no task and finishes all there are.
  abbrev pub Drains : Pool Task → Type 0
  Drains s = (s' : Pool Task) × Steps Task s s' × (s'.submitted ≡ s.submitted) × AllFinished Task s'

  drain_within :
      (k : ℕ) (s : Pool Task) → Sound Task s → 0 < length s.workers → measure s ≤ k → Drains s
  drain_within zero s h n m = elim (next s h n) [
    | inr (q, z) ↦ (s, stay, refl, quiet-AllFinished Task s h q (counted-ahead s.workers z))
    | inl (s', st, same, len, less) ↦ absurd (omega (arith, m, less))
  ]
  drain_within (suc k) s h n m = elim (next s h n) [
    | inr (q, z) ↦ (s, stay, refl, quiet-AllFinished Task s h q (counted-ahead s.workers z))
    | inl (s', st, same, len, less) ↦
        let (u, run, same', done) =
          drain_within k s' (Step-Sound Task s s' st h) (omega (arith, n, len))
            (omega (arith, m, less)) in
        (u, trans-Steps s s' u (later stay st) run, same' ∙ same, done)
  ]

  Step-threads : (s s' : Pool Task) → Step Task s s' → length s'.workers ≡ length s.workers
  Step-threads s s' (submit t free going) = refl
  Step-threads s s' (take_task i t ts free w e) = length-set s.workers i (running t)
  Step-threads s s' (finish i t w) = length-set s.workers i counting
  Step-threads s s' (fetch_sub i w) = length-set s.workers i notifying
  Step-threads s s' (notify_all i w) = length-set s.workers i waiting
  Step-threads s s' (worker_return i free w stopped empty) = length-set s.workers i returned
  Step-threads s s' (call_wait_idle j c) = refl
  Step-threads s s' (wait_returns j free c e) = refl
  Step-threads s s' (wait_again j free c e) = refl
  Step-threads s s' (sleep j c) = refl
  Step-threads s s' (shut_down free) = refl

  length-copies : (n : ℕ) (w : Worker Task) → length (copies n w) ≡ n
  length-copies zero w = refl
  length-copies (suc n) w = ap suc (length-copies n w)

  Reach-threads :
      (thread_count callers : ℕ) (s : Pool Task)
      → Reach Task thread_count callers s
      → length s.workers ≡ thread_count
  unfolding init
  Reach-threads thread_count callers s stay = length-copies thread_count waiting
  Reach-threads thread_count callers s (later r st) =
      Step-threads _ s st ∙ Reach-threads thread_count callers _ r

  -- From every state that a pool with a thread reaches, a run of the pool leads to a state where
  -- every task that was submitted has finished, as often as it was submitted, and no other has.
  pub Reach-Drains :
      (thread_count callers : ℕ) (s : Pool Task)
      → Reach Task thread_count callers s
      → 0 < thread_count
      → Drains s
  Reach-Drains thread_count callers s r n =
      drain_within (measure s) s (Reach-Sound Task thread_count callers s r)
        (omega (arith, n, Reach-threads thread_count callers s r)) (omega arith)
