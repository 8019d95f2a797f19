-- ===== src/InsertPool/Sound.antt =====
-- What holds in every state that the pool of src/insert_thread_pool.cpp reaches.
use qvcache.Common.{
  ℕ, zero, suc, ◌+◌, ◌≤◌, ◌<◌, List, [], ◌∷◌, ◌++◌, map, Bool, true, false, if◌then◌else◌, set,
  total, total-append, total-set, ◌≡◌, refl, sym, ap, ◌∙◌, arith,
}
use mathlib.Core.List.{append_assoc, cons≢nil}
use mathlib.Core.Bool.{true≢false}
use qvcache.InsertPool.{
  Worker, waiting, running, counting, notifying, returned, Caller, elsewhere, testing, parking,
  asleep, Pool, wake, Step, submit, take_task, finish, fetch_sub, notify_all, worker_return,
  call_wait_idle, wait_returns, wait_again, sleep, shut_down, copies, init, stay, later, Reach,
}

module _ (Task : Type 0) where
  -- A weight of tasks, on the task that a worker is running.
  abbrev pub held : (Task → ℕ) → Worker Task → ℕ
  held f (running t) = f t
  held f waiting = 0
  held f counting = 0
  held f notifying = 0
  held f returned = 0

  -- A worker that `inflight` counts.
  abbrev pub counted : Worker Task → ℕ
  counted (running t) = 1
  counted counting = 1
  counted waiting = 0
  counted notifying = 0
  counted returned = 0

  abbrev pub gone : Worker Task → ℕ
  gone returned = 1
  gone waiting = 0
  gone (running t) = 0
  gone counting = 0
  gone notifying = 0

  abbrev pub parks : Caller Task → ℕ
  parks parking = 1
  parks elsewhere = 0
  parks testing = 0
  parks asleep = 0

  -- The tasks start in the order of submission; each that started has finished or is run by one
  -- worker; `inflight` counts the workers; a worker returns after the stop and the last task; and
  -- one caller at most holds the mutex.
  pub record Sound (s : Pool Task) : Type 0 where
    pub order : s.submitted ≡ s.started ++ s.tasks
    pub once : (f : Task → ℕ) → total f s.started ≡ total f s.finished + total (held f) s.workers
    pub inflight : s.inflight ≡ total counted s.workers
    pub drained : 0 < total gone s.workers → (s.stop ≡ true) × (s.tasks ≡ [])
    pub owner : total parks s.callers ≡ (if s.locked then 1 else 0)

  total-wake : (cs : List (Caller Task)) → total parks (map (wake Task) cs) ≡ total parks cs
  unfolding wake
  total-wake [] = refl
  total-wake (elsewhere ∷ cs) = ap (λ n. 0 + n) (total-wake cs)
  total-wake (testing ∷ cs) = ap (λ n. 0 + n) (total-wake cs)
  total-wake (parking ∷ cs) = ap (λ n. 1 + n) (total-wake cs)
  total-wake (asleep ∷ cs) = ap (λ n. 0 + n) (total-wake cs)

  total-copies_zero : {A : Type 0} (w : A → ℕ) (n : ℕ) (x : A) → w x ≡ 0 → total w (copies n x) ≡ 0
  total-copies_zero w zero x e = refl
  total-copies_zero w (suc n) x e = omega (arith, total-copies_zero w n x e)

  pub init-Sound : (thread_count callers : ℕ) → Sound (init Task thread_count callers)
  unfolding init
  init-Sound thread_count callers = record {
    order = refl;
    once = λ f. omega (arith, total-copies_zero (held f) thread_count waiting refl);
    inflight = sym (total-copies_zero counted thread_count waiting refl);
    drained = λ h. absurd (omega (arith, h, total-copies_zero gone thread_count waiting refl));
    owner = total-copies_zero parks callers elsewhere refl;
  }

  at_most_one : (b : Bool) → (if b then 1 else 0) ≤ 1
  at_most_one true = omega arith
  at_most_one false = omega arith

  with_callers :
      (s : Pool Task) (callers : List (Caller Task)) (locked : Bool)
      → Sound s
      → total parks callers ≡ (if locked then 1 else 0)
      → Sound (record s { callers = callers; locked = locked })
  with_callers s callers locked h o = record {
    order = h.order;
    once = h.once;
    inflight = h.inflight;
    drained = h.drained;
    owner = o;
  }

  pub Step-Sound : (s s' : Pool Task) → Step Task s s' → Sound s → Sound s'
  Step-Sound s s' (submit t free going) h = record {
    order = ap (λ l. l ++ t ∷ []) h.order ∙ append_assoc s.started s.tasks (t ∷ []);
    once = h.once;
    inflight = h.inflight;
    drained = λ g. absurd (true≢false (sym (h.drained g).0 ∙ going));
    owner = h.owner;
  }
  Step-Sound s s' (take_task i t ts free w e) h = record {
    order = h.order ∙ ap (λ l. s.started ++ l) e ∙ sym (append_assoc s.started (t ∷ []) ts);
    once = λ f. omega (
      arith,
      h.once f,
      total-append f s.started (t ∷ []),
      total-set (held f) s.workers i _ (running t) w,
    );
    inflight = omega (arith, h.inflight, total-set counted s.workers i _ (running t) w);
    drained = λ g. absurd (none_left g);
    owner = h.owner;
  }
    where
      none_left : 0 < total gone (set s.workers i (running t)) → ⊥
      none_left g =
          cons≢nil
            (sym e ∙ (h.drained (omega (arith, g, total-set gone s.workers i _ (running t) w))).1)
  Step-Sound s s' (finish i t w) h = record {
    order = h.order;
    once = λ f. omega (
      arith,
      h.once f,
      total-append f s.finished (t ∷ []),
      total-set (held f) s.workers i _ counting w,
    );
    inflight = omega (arith, h.inflight, total-set counted s.workers i _ counting w);
    drained = λ g. h.drained (omega (arith, g, total-set gone s.workers i _ counting w));
    owner = h.owner;
  }
  Step-Sound s s' (fetch_sub i w) h = record {
    order = h.order;
    once = λ f. omega (arith, h.once f, total-set (held f) s.workers i _ notifying w);
    inflight = omega (arith, h.inflight, total-set counted s.workers i _ notifying w);
    drained = λ g. h.drained (omega (arith, g, total-set gone s.workers i _ notifying w));
    owner = h.owner;
  }
  Step-Sound s s' (notify_all i w) h = record {
    order = h.order;
    once = λ f. omega (arith, h.once f, total-set (held f) s.workers i _ waiting w);
    inflight = omega (arith, h.inflight, total-set counted s.workers i _ waiting w);
    drained = λ g. h.drained (omega (arith, g, total-set gone s.workers i _ waiting w));
    owner = total-wake s.callers ∙ h.owner;
  }
  Step-Sound s s' (worker_return i free w stopped empty) h = record {
    order = h.order;
    once = λ f. omega (arith, h.once f, total-set (held f) s.workers i _ returned w);
    inflight = omega (arith, h.inflight, total-set counted s.workers i _ returned w);
    drained = λ g. (stopped, empty);
    owner = h.owner;
  }
  Step-Sound s s' (call_wait_idle j c) h =
      with_callers s (set s.callers j testing) s.locked h
        (omega (arith, h.owner, total-set parks s.callers j _ testing c))
  Step-Sound s s' (wait_returns j free c e) h =
      with_callers s (set s.callers j elsewhere) s.locked h
        (omega (arith, h.owner, total-set parks s.callers j _ elsewhere c))
  Step-Sound s s' (wait_again j free c e) h = with_callers s (set s.callers j parking) true h (
      omega (
        arith,
        h.owner,
        ap {B = ℕ} (λ b. if b then 1 else 0) free,
        total-set parks s.callers j _ parking c,
      ))
  Step-Sound s s' (sleep j c) h =
      with_callers s (set s.callers j asleep) false h
        (omega (arith, h.owner, at_most_one s.locked, total-set parks s.callers j _ asleep c))
  Step-Sound s s' (shut_down free) h = record {
    order = h.order;
    once = h.once;
    inflight = h.inflight;
    drained = λ g. (refl, (h.drained g).1);
    owner = h.owner;
  }

  -- Every state that is reached.
  pub Reach-Sound :
      (thread_count callers : ℕ) (s : Pool Task) → Reach Task thread_count callers s → Sound s
  Reach-Sound thread_count callers s stay = init-Sound thread_count callers
  Reach-Sound thread_count callers s (later r st) =
      Step-Sound _ s st (Reach-Sound thread_count callers _ r)
