-- ===== src/SearchPool/Once.antt =====
-- `parallel_for` of include/qvcache/search_thread_pool.h runs every job once.
use qvcache.Common.{
  ℕ, zero, suc, dec_le, ◌+◌, ◌≤◌, min, [], true, false, total, ◌≡◌, sym, ap, ◌∙◌, arith, Bool-cases,
  inl, inr,
}
use mathlib.Core.Bool.{true≢false}
use qvcache.SearchPool.{joining, Pool, Reach}
use qvcache.SearchPool.Sound.{
  Called, Live, Sound, Reach-Sound, pending, held, in_call, own, ids, fresh-pending, held-pending,
}

-- The jobs that returned or threw are distinct jobs of the call, none is in a worker, and if there
-- is no error, every job has returned, once, and none has thrown.
pub record RanOnce (s : Pool) : Type 0 where
  pub at_most_once : (f : ℕ → ℕ) → total f s.ran + total f s.thrown ≤ total f (ids s.job_n)
  pub out : (f : ℕ → ℕ) → total (held f) s.workers ≡ 0
  pub all :
      s.error ≡ false → (s.thrown ≡ []) × ((f : ℕ → ℕ) → total f s.ran ≡ total f (ids s.job_n))

total-ids_le : (f : ℕ → ℕ) (k n : ℕ) → k ≤ n → total f (ids k) ≤ total f (ids n)
total-ids_le f k zero h = ap_le f k (omega (arith, h))
  where
    ap_le : (f : ℕ → ℕ) (k : ℕ) → k ≡ 0 → total f (ids k) ≤ total f (ids 0)
    ap_le f k e = omega (arith, ap (λ k. total f (ids k)) e)
total-ids_le f k (suc n) h = elim (dec_le k n) [
  | yes l ↦ omega (arith, total-ids_le f k n l)
  | no g ↦ omega (arith, ap (λ k. total f (ids k)) (same k n h g))
]
  where
    same : (k n : ℕ) → k ≤ suc n → ¬ (k ≤ n) → k ≡ suc n
    same k n h g = omega arith

in_call-Live : (s : Pool) → Sound s → in_call s.caller ≡ true → Live s
in_call-Live s h c = elim (Bool-cases s.stop) [
  | inl e ↦ absurd (true≢false (sym c ∙ h.shut e))
  | inr e ↦ h.live e
]

-- Without an error the workers leave only when every job has begun.
all_begun :
    (s : Pool)
    → Called s
    → s.error ≡ false
    → total (pending s.epoch) s.workers ≡ 0
    → s.job_n ≤ s.next
all_begun s called e quiet = elim (called.staying e) [
  | inl past ↦ past
  | inr all ↦ absurd (omega (arith, all, called.threads, quiet, fresh-pending s.epoch s.workers))
]

-- When the wait of `parallel_for` for the workers ends, no worker is in a job, so that none uses the
-- function afterwards. Each job has returned or thrown at most once; if no exception is rethrown,
-- every job below n has returned once and none has thrown.
pub joins-RanOnce :
    (thread_count : ℕ) (s : Pool)
    → Reach thread_count s
    → s.caller ≡ joining
    → s.arrived ≡ 0
    → RanOnce s
joins-RanOnce thread_count s r c z =
    let live = in_call-Live s (Reach-Sound thread_count s r) (ap in_call c) in
    let called = live.called (ap in_call c) in
    let quiet : total (pending s.epoch) s.workers ≡ 0 = sym live.arrived ∙ z in
    record {
      at_most_once = λ f.
          omega (arith, called.once f, total-ids_le f (min s.next s.job_n) s.job_n (omega arith));
      out = λ f. held-pending s.epoch f s.workers quiet;
      all = λ e. (
        called.no_error e,
        λ f. omega (
          arith,
          called.once f,
          held-pending s.epoch f s.workers quiet,
          ap (own f) c,
          ap (total f) (called.no_error e),
          ap (λ k. total f (ids k)) (min_past s.next s.job_n (all_begun s called e quiet)),
        ),
      );
    }
  where
    min_past : (next jobs : ℕ) → jobs ≤ next → min next jobs ≡ jobs
    min_past next jobs p = omega arith
