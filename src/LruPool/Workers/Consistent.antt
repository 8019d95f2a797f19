-- ===== src/LruPool/Workers/Consistent.antt =====
-- What holds in every state that the pool of include/qvcache/lru_thread_pool.h reaches.
mod Defs
pub use Defs.*
use mathlib.Core.Bool.{true≢false}
use mathlib.Core.List.{append_assoc, cons≢nil}
use qvcache.Common.{
  ℕ, zero, suc, ◌+◌, ◌-◌, ◌≤◌, ◌<◌, ◌==◌, List, [], ◌∷◌, ◌++◌, Bool, true, false, if◌then◌else◌,
  Option, none, some, get_elem?, set, length, length-append, take, total, total-append, total-set,
  total-term, ◌≡◌, refl, sym, ap, ◌∙◌, subst, arith,
}
use qvcache.InsertPool.{copies}
use qvcache.Lru
use qvcache.Lru.{LruCache, order, access}
use qvcache.Lru.Invariant.{IsValid, init-IsValid}
use qvcache.Lru.Order.{Accessed, remove, access-Accessed, take-touch-take}
use qvcache.LruPool.Batch.{uses}
use qvcache.LruPool.Workers.{
  Worker, waiting, taken, running, counting, returned, Pool, Step, enqueue_task, take_task,
  fetch_add, access_tag, set_value, fetch_sub, worker_return, stop_pool, init, Reach, start, later,
}

total-copies : {B : Type 0} (w : B → ℕ) (n : ℕ) (x : B) → w x ≡ 0 → total w (copies n x) ≡ 0
total-copies w zero x e = refl
total-copies w (suc n) x e = omega (arith, total-copies w n x e)

module _ {A : Type 0} (dec : Discrete A) where
  abbrev P : Type 0
  P = Pool dec

  differ_self : (a b : ℕ) → a ≡ b → differ a b ≡ 0
  differ_self a b e = ground arith

  differ_zero : (a b : ℕ) → differ a b ≡ 0 → a ≡ b
  differ_zero a b e = ground arith

  uses-append :
      (seen ts : List A) (t : A)
      → uses dec seen (ts ++ t ∷ []) ≡ t ∷ remove dec t (uses dec seen ts)
  uses-append seen [] t = refl
  uses-append seen (x ∷ ts) t = uses-append (x ∷ remove dec x seen) ts t

  take_nil : (n : ℕ) → take {A = A} n [] ≡ []
  take_nil zero = refl
  take_nil (suc n) = refl

  init-Consistent :
      (num_threads capacity : ℕ) → Consistent dec capacity (init dec num_threads capacity)
  unfolding init Lru.init
  init-Consistent num_threads capacity = record {
    ordered = refl;
    once = λ f. omega (arith, total-copies (held dec f) num_threads waiting refl);
    matched = total-copies (unmatched dec) num_threads waiting refl;
    complete = refl;
    active_threads = sym (total-copies (active dec) num_threads waiting refl);
    drained = λ h. absurd (omega (arith, h, total-copies (gone dec) num_threads waiting refl));
    valid = init-IsValid dec capacity;
    capacity_kept = refl;
    used = sym (take_nil capacity);
  }

  -- An access on a valid cache of this capacity is the next one of the history.
  access-used :
      (capacity : ℕ) (s : P) (tag : A) (c : LruCache A) (result : Bool)
      → Consistent dec capacity s
      → 0 < capacity
      → access dec s.cache tag ≡ some (c, result)
      → IsValid dec c
        × (c.max_capacity ≡ capacity)
        × (order c ≡ take capacity (uses dec [] (s.accessed ++ tag ∷ [])))
  access-used capacity s tag c result h pos e =
      let (c', ran, found) =
        access-Accessed dec s.cache tag h.valid (omega (arith, pos, h.capacity_kept)) in
      let same : c' ≡ c = ap (cache_of s.cache) (sym ran ∙ e) in
      let done = subst (λ x. Accessed dec s.cache x tag) same found in
      (
        done.valid,
        done.capacity ∙ h.capacity_kept,
        done.ordered
            ∙ ap (λ n. take n (tag ∷ remove dec tag (order s.cache))) h.capacity_kept
            ∙ ap (λ l. take capacity (tag ∷ remove dec tag l)) h.used
            ∙ take-touch-take dec capacity tag (uses dec [] s.accessed)
            ∙ ap (take capacity) (sym (uses-append [] s.accessed tag)),
      )
    where
      cache_of : LruCache A → Option (LruCache A × Bool) → LruCache A
      cache_of c none = c
      cache_of c (some r) = r.0

  same_total :
      (t : List A) (tag : A) (tags : List A) (results : List Bool) (result : Bool)
      → unmatched dec (running t tags (results ++ result ∷ []))
        ≡ unmatched dec (running t (tag ∷ tags) results)
  same_total t tag tags results result =
      ap (λ n. differ n (length t)) (omega (arith, length-append results (result ∷ [])))

  no_more :
      (t : List A) (results : List Bool)
      → unmatched dec (running t [] results) ≡ differ (length results) (length t)
  no_more t results = ap (λ n. differ n (length t)) (add_zero (length results))
    where
      add_zero : (n : ℕ) → n + 0 ≡ n
      add_zero n = omega arith

  Step-Consistent :
      (capacity : ℕ) (s s' : P)
      → 0 < capacity
      → Step dec s s'
      → Consistent dec capacity s
      → Consistent dec capacity s'
  Step-Consistent capacity s s' pos (enqueue_task t going) h = record {
    ordered = ap (λ l. l ++ t ∷ []) h.ordered ∙ append_assoc s.started s.tasks (t ∷ []);
    once = h.once;
    matched = h.matched;
    complete = h.complete;
    active_threads = h.active_threads;
    drained = λ g. absurd (true≢false (sym (h.drained g).0 ∙ going));
    valid = h.valid;
    capacity_kept = h.capacity_kept;
    used = h.used;
  }
  Step-Consistent capacity s s' pos (take_task i t ts w e) h = record {
    ordered = h.ordered ∙ ap (λ l. s.started ++ l) e ∙ sym (append_assoc s.started (t ∷ []) ts);
    once = λ f. omega (
      arith,
      h.once f,
      total-append f s.started (t ∷ []),
      total-set (held dec f) s.workers i _ (taken t) w,
    );
    matched = omega (arith, h.matched, total-set (unmatched dec) s.workers i _ (taken t) w);
    complete = h.complete;
    active_threads =
        omega (arith, h.active_threads, total-set (active dec) s.workers i _ (taken t) w);
    drained = λ g. absurd (
        cons≢nil (
          sym e
          ∙ (h.drained (omega (arith, g, total-set (gone dec) s.workers i _ (taken t) w))).1));
    valid = h.valid;
    capacity_kept = h.capacity_kept;
    used = h.used;
  }
  Step-Consistent capacity s s' pos (fetch_add i t w) h = record {
    ordered = h.ordered;
    once = λ f. omega (arith, h.once f, total-set (held dec f) s.workers i _ (running t t []) w);
    matched = omega (
      arith,
      h.matched,
      differ_self (0 + length t) (length t) (omega arith),
      total-set (unmatched dec) s.workers i _ (running t t []) w,
    );
    complete = h.complete;
    active_threads =
        omega (arith, h.active_threads, total-set (active dec) s.workers i _ (running t t []) w);
    drained =
        λ g. h.drained (omega (arith, g, total-set (gone dec) s.workers i _ (running t t []) w));
    valid = h.valid;
    capacity_kept = h.capacity_kept;
    used = h.used;
  }
  Step-Consistent capacity s s' pos (access_tag i t tag tags results c result w e) h =
      let (valid, kept, used) = access-used capacity s tag c result h pos e in
      record {
        ordered = h.ordered;
        once = λ f. omega (
          arith,
          h.once f,
          total-set (held dec f) s.workers i _ (running t tags (results ++ result ∷ [])) w,
        );
        matched = omega (
          arith,
          h.matched,
          same_total t tag tags results result,
          total-set (unmatched dec) s.workers i _ (running t tags (results ++ result ∷ [])) w,
        );
        complete = h.complete;
        active_threads = omega (
          arith,
          h.active_threads,
          total-set (active dec) s.workers i _ (running t tags (results ++ result ∷ [])) w,
        );
        drained = λ g. h.drained (
            omega (
              arith,
              g,
              total-set (gone dec) s.workers i _ (running t tags (results ++ result ∷ [])) w,
            ));
        valid = valid;
        capacity_kept = kept;
        used = used;
      }
  Step-Consistent capacity s s' pos (set_value i t results w) h = record {
    ordered = h.ordered;
    once = λ f. omega (
      arith,
      h.once f,
      total-append (λ r. f r.0) s.finished ((t, results) ∷ []),
      total-set (held dec f) s.workers i _ counting w,
    );
    matched = omega (arith, h.matched, total-set (unmatched dec) s.workers i _ counting w);
    complete = omega (
      arith,
      h.complete,
      h.matched,
      total-term (unmatched dec) s.workers i (running t [] results) w,
      total-append (λ r. differ (length r.1) (length r.0)) s.finished ((t, results) ∷ []),
      no_more t results,
    );
    active_threads =
        omega (arith, h.active_threads, total-set (active dec) s.workers i _ counting w);
    drained = λ g. h.drained (omega (arith, g, total-set (gone dec) s.workers i _ counting w));
    valid = h.valid;
    capacity_kept = h.capacity_kept;
    used = h.used;
  }
  Step-Consistent capacity s s' pos (fetch_sub i w) h = record {
    ordered = h.ordered;
    once = λ f. omega (arith, h.once f, total-set (held dec f) s.workers i _ waiting w);
    matched = omega (arith, h.matched, total-set (unmatched dec) s.workers i _ waiting w);
    complete = h.complete;
    active_threads =
        omega (arith, h.active_threads, total-set (active dec) s.workers i _ waiting w);
    drained = λ g. h.drained (omega (arith, g, total-set (gone dec) s.workers i _ waiting w));
    valid = h.valid;
    capacity_kept = h.capacity_kept;
    used = h.used;
  }
  Step-Consistent capacity s s' pos (worker_return i w stopped empty) h = record {
    ordered = h.ordered;
    once = λ f. omega (arith, h.once f, total-set (held dec f) s.workers i _ returned w);
    matched = omega (arith, h.matched, total-set (unmatched dec) s.workers i _ returned w);
    complete = h.complete;
    active_threads =
        omega (arith, h.active_threads, total-set (active dec) s.workers i _ returned w);
    drained = λ g. (stopped, empty);
    valid = h.valid;
    capacity_kept = h.capacity_kept;
    used = h.used;
  }
  Step-Consistent capacity s s' pos stop_pool h = record {
    ordered = h.ordered;
    once = h.once;
    matched = h.matched;
    complete = h.complete;
    active_threads = h.active_threads;
    drained = λ g. (refl, (h.drained g).1);
    valid = h.valid;
    capacity_kept = h.capacity_kept;
    used = h.used;
  }

  pub Reach-Consistent :
      (num_threads capacity : ℕ) (s : P)
      → 0 < capacity
      → Reach dec num_threads capacity s
      → Consistent dec capacity s
  Reach-Consistent num_threads capacity s pos start = init-Consistent num_threads capacity
  Reach-Consistent num_threads capacity s pos (later r st) =
      Step-Consistent capacity _ s pos st (Reach-Consistent num_threads capacity _ pos r)
