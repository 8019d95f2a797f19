-- ===== src/SearchPool/Returns.antt =====
-- `parallel_for` of include/qvcache/search_thread_pool.h comes to its end.
use mathlib.Core.Bool.{true≢false}
use qvcache.Common.{
  ℕ, zero, suc, ◌+◌, ◌-◌, ◌*◌, ◌≤◌, ◌<◌, true, false, some, get_elem?, total, total-set,
  total-positive, ◌≡◌, ◌≢◌, refl, sym, ap, ◌∙◌, arith, Bool-cases, ◌⊎◌, inl, inr, dec_lt,
}
use qvcache.SearchPool.{
  Worker, looking, woken, fetching, running, leaving, returned, Caller, outside, own_job, joining,
  Pool, Step, own_returns, load_epoch, load_job, fetch_job, no_more_jobs, job_returns, arrive,
  Reach,
}
use qvcache.SearchPool.Sound.{
  Live, Sound, Reach-Sound, Step-Sound, late, late_self, late_other, late_zero, pending, in_call,
  known-zero,
}

-- A run of the pool.
pub data Steps (s : Pool) : Pool → Type 0 where
  stay : Steps s s
  onward : {t u : Pool} → Steps s t → Step t u → Steps s u

trans-Steps : (s t u : Pool) → Steps s t → Steps t u → Steps s u
trans-Steps s t u r stay = r
trans-Steps s t u r (onward q st) = onward (trans-Steps s t _ r q) st

-- The steps that a worker still has, but for the jobs to come.
abbrev ahead : ℕ → Worker → ℕ
ahead e (looking seen) = 6 * late e seen
ahead e (woken gen) = 5
ahead e (fetching seen n) = 3
ahead e (running seen n id) = 4
ahead e (leaving seen) = 2
ahead e returned = 0

abbrev own_ahead : Caller → ℕ
own_ahead own_job = 1
own_ahead joining = 0
own_ahead outside = 0

abbrev measure : Pool → ℕ
measure s = total (ahead s.epoch) s.workers + 2 * (s.job_n - s.next) + own_ahead s.caller

-- A step of the call that comes nearer to its end.
abbrev Next : Pool → Type 0
Next s =
    (s' : Pool) × Step s s'
    × (in_call s'.caller ≡ true)
    × (s'.job_n ≡ s.job_n)
    × (s'.stop ≡ false)
    × (measure s' < measure s)

next_worker :
    (s : Pool) (i : ℕ) (w : Worker)
    → Live s
    → s.stop ≡ false
    → get_elem? s.workers i ≡ some w
    → 0 < pending s.epoch w
    → in_call s.caller ≡ true
    → Next s
next_worker s i (looking seen) h g e p c =
    let ne : seen ≢ s.epoch = λ x. absurd (omega (arith, p, late_self s.epoch seen x)) in
    (
      _,
      load_epoch i seen e ne,
      c,
      refl,
      g,
      omega (
        arith,
        late_other s.epoch seen ne,
        total-set (ahead s.epoch) s.workers i _ (woken s.epoch) e,
      ),
    )
next_worker s i (woken gen) h g e p c = (
  _,
  load_job i gen e g (h.called c).job,
  c,
  refl,
  g,
  omega (arith, total-set (ahead s.epoch) s.workers i _ (fetching gen s.job_n) e),
)
next_worker s i (fetching seen n) h g e p c =
    let n_jobs = late_zero s.job_n n (omega (arith, known-zero s i (fetching seen n) h e)) in
    elim (dec_lt s.next n) [
      | yes l ↦ (
        _,
        fetch_job i seen n e l,
        c,
        refl,
        g,
        omega (arith, n_jobs, l, total-set (ahead s.epoch) s.workers i _ (running seen n s.next) e),
      )
      | no m ↦ (
        _,
        no_more_jobs i seen n e (omega (arith, m)),
        c,
        refl,
        g,
        omega (arith, total-set (ahead s.epoch) s.workers i _ (leaving seen) e),
      )
    ]
next_worker s i (running seen n id) h g e p c = (
  _,
  job_returns i seen n id e,
  c,
  refl,
  g,
  omega (arith, total-set (ahead s.epoch) s.workers i _ (fetching seen n) e),
)
next_worker s i (leaving seen) h g e p c = (
  _,
  arrive i seen e,
  c,
  refl,
  g,
  omega (
    arith,
    known-zero s i (leaving seen) h e,
    total-set (ahead s.epoch) s.workers i _ (looking seen) e,
  ),
)
next_worker s i returned h g e p c = absurd (omega (arith, p))

-- The caller has its own job, or waits and can go on, when no worker is pending.
next_caller :
    (s : Pool) (x : Caller)
    → s.caller ≡ x
    → s.stop ≡ false
    → in_call s.caller ≡ true
    → Next s ⊎ (s.caller ≡ joining)
next_caller s own_job e g c = inl (_, own_returns e, refl, refl, g, omega (arith, ap own_ahead e))
next_caller s joining e g c = inr e
next_caller s outside e g c = absurd (true≢false (sym c ∙ ap in_call e))

next :
    (s : Pool)
    → Live s
    → s.stop ≡ false
    → in_call s.caller ≡ true
    → Next s ⊎ ((s.caller ≡ joining) × (s.arrived ≡ 0))
next s h g c = elim (dec_lt 0 (total (pending s.epoch) s.workers)) [
  | yes busy ↦
      let (i, w, e, p) = total-positive (pending s.epoch) s.workers busy in
      inl (next_worker s i w h g e p c)
  | no quiet ↦ elim (next_caller s s.caller refl g c) [
    | inl n ↦ inl n
    | inr j ↦ inr (j, omega (arith, quiet, h.arrived))
  ]
]

-- A run of the same call to the end of its wait.
abbrev pub Returns : Pool → Type 0
Returns s =
    (s' : Pool) × Steps s s' × (s'.job_n ≡ s.job_n) × (s'.caller ≡ joining) × (s'.arrived ≡ 0)

run_within :
    (k : ℕ) (s : Pool)
    → Sound s
    → s.stop ≡ false
    → in_call s.caller ≡ true
    → measure s ≤ k
    → Returns s
run_within zero s h g c m = elim (next s (h.live g) g c) [
  | inr (j, z) ↦ (s, stay, refl, j, z)
  | inl (s', st, c', same, g', less) ↦ absurd (omega (arith, m, less))
]
run_within (suc k) s h g c m = elim (next s (h.live g) g c) [
  | inr (j, z) ↦ (s, stay, refl, j, z)
  | inl (s', st, c', same, g', less) ↦
      let (u, run, same', j, z) =
        run_within k s' (Step-Sound s s' st h) g' c' (omega (arith, m, less)) in
      (u, trans-Steps s s' u (onward stay st) run, same' ∙ same, j, z)
]

-- From every state during a call of `parallel_for`, a run of the pool leads to the end of the wait of
-- that call, where every worker has arrived.
pub Reach-Returns :
    (thread_count : ℕ) (s : Pool) → Reach thread_count s → in_call s.caller ≡ true → Returns s
Reach-Returns thread_count s r c =
    let h = Reach-Sound thread_count s r in
    elim (Bool-cases s.stop) [
      | inl e ↦ absurd (true≢false (sym c ∙ h.shut e))
      | inr g ↦ run_within (measure s) s h g c (omega arith)
    ]
