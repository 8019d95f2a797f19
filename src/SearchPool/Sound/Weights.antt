-- ===== src/SearchPool/Sound/Weights.antt =====
-- What the workers of include/qvcache/search_thread_pool.h count for.
use qvcache.Common.{
  ℕ, zero, suc, ◌+◌, ◌≤◌, ◌==◌, List, [], ◌∷◌, Bool, true, false, if◌then◌else◌, length, total, ◌≡◌,
  ◌≢◌, refl, arith,
}
use qvcache.InsertPool.{copies}
use qvcache.SearchPool.{
  Worker, looking, woken, fetching, running, leaving, returned, Caller, outside, own_job, joining,
}

-- Whether an epoch is not the given one.
abbrev pub late : ℕ → ℕ → ℕ
late e seen = if seen == e then 0 else 1

pub late_self : (e seen : ℕ) → seen ≡ e → late e seen ≡ 0
late_self e seen h = ground arith

pub late_other : (e seen : ℕ) → seen ≢ e → late e seen ≡ 1
late_other e seen h = ground arith

pub late_zero : (e seen : ℕ) → late e seen ≡ 0 → seen ≡ e
late_zero e seen h = ground arith

-- It has still to come by `arrived_.fetch_sub`.
abbrev pub pending : ℕ → Worker → ℕ
pending e (looking seen) = late e seen
pending e (woken gen) = 1
pending e (fetching seen n) = 1
pending e (running seen n id) = 1
pending e (leaving seen) = 1
pending e returned = 0

-- It is in a call with another epoch or another number of jobs.
abbrev pub astray : ℕ → ℕ → Worker → ℕ
astray e jobs (looking seen) = 0
astray e jobs (woken gen) = late e gen
astray e jobs (fetching seen n) = late e seen + late jobs n
astray e jobs (running seen n id) = late e seen + late jobs n
astray e jobs (leaving seen) = late e seen
astray e jobs returned = 0

abbrev pub gone : Worker → ℕ
gone returned = 1
gone (looking seen) = 0
gone (woken gen) = 0
gone (fetching seen n) = 0
gone (running seen n id) = 0
gone (leaving seen) = 0

-- It has not left the loop over the jobs.
abbrev pub fresh : ℕ → Worker → ℕ
fresh e (looking seen) = late e seen
fresh e (woken gen) = 1
fresh e (fetching seen n) = 1
fresh e (running seen n id) = 1
fresh e (leaving seen) = 0
fresh e returned = 0

-- A weight of jobs, on the job it is in.
abbrev pub held : (ℕ → ℕ) → Worker → ℕ
held f (running seen n id) = f id
held f (looking seen) = 0
held f (woken gen) = 0
held f (fetching seen n) = 0
held f (leaving seen) = 0
held f returned = 0

abbrev pub in_call : Caller → Bool
in_call outside = false
in_call own_job = true
in_call joining = true

abbrev pub own : (ℕ → ℕ) → Caller → ℕ
own f outside = 0
own f own_job = f 0
own f joining = 0

-- The jobs below k.
abbrev pub ids : ℕ → List ℕ
ids zero = []
ids (suc k) = k ∷ ids k

pub fresh-pending : (e : ℕ) (ws : List Worker) → total (fresh e) ws ≤ total (pending e) ws
fresh-pending e [] = omega arith
fresh-pending e (looking seen ∷ ws) = omega (arith, fresh-pending e ws)
fresh-pending e (woken gen ∷ ws) = omega (arith, fresh-pending e ws)
fresh-pending e (fetching seen n ∷ ws) = omega (arith, fresh-pending e ws)
fresh-pending e (running seen n id ∷ ws) = omega (arith, fresh-pending e ws)
fresh-pending e (leaving seen ∷ ws) = omega (arith, fresh-pending e ws)
fresh-pending e (returned ∷ ws) = omega (arith, fresh-pending e ws)

-- Nothing is held when nobody is pending.
pub held-pending :
    (e : ℕ) (f : ℕ → ℕ) (ws : List Worker) → total (pending e) ws ≡ 0 → total (held f) ws ≡ 0
held-pending e f [] h = refl
held-pending e f (looking seen ∷ ws) h = omega (arith, held-pending e f ws (omega (arith, h)))
held-pending e f (woken gen ∷ ws) h = absurd (omega (arith, h))
held-pending e f (fetching seen n ∷ ws) h = absurd (omega (arith, h))
held-pending e f (running seen n id ∷ ws) h = absurd (omega (arith, h))
held-pending e f (leaving seen ∷ ws) h = absurd (omega (arith, h))
held-pending e f (returned ∷ ws) h = omega (arith, held-pending e f ws (omega (arith, h)))

-- Workers that have all seen epoch e are all pending, and fresh, in another.
pub rested :
    (e e' : ℕ) (ws : List Worker)
    → e ≢ e'
    → total gone ws ≡ 0
    → total (pending e) ws ≡ 0
    → (total (pending e') ws ≡ length ws) × (total (fresh e') ws ≡ length ws)
rested e e' [] ne g h = (refl, refl)
rested e e' (looking seen ∷ ws) ne g h =
    let (p, q) = rested e e' ws ne (omega (arith, g)) (omega (arith, h)) in
    let seen_e = late_zero e seen (omega (arith, h)) in
    let l = late_other e' seen (λ x. ne (omega (arith, x, seen_e))) in
    (omega (arith, p, l), omega (arith, q, l))
rested e e' (woken gen ∷ ws) ne g h = absurd (omega (arith, h))
rested e e' (fetching seen n ∷ ws) ne g h = absurd (omega (arith, h))
rested e e' (running seen n id ∷ ws) ne g h = absurd (omega (arith, h))
rested e e' (leaving seen ∷ ws) ne g h = absurd (omega (arith, h))
rested e e' (returned ∷ ws) ne g h = absurd (omega (arith, g))

pub rested_astray :
    (e e' jobs : ℕ) (ws : List Worker) → total (pending e) ws ≡ 0 → total (astray e' jobs) ws ≡ 0
rested_astray e e' jobs [] h = refl
rested_astray e e' jobs (looking seen ∷ ws) h =
    omega (arith, rested_astray e e' jobs ws (omega (arith, h)))
rested_astray e e' jobs (woken gen ∷ ws) h = absurd (omega (arith, h))
rested_astray e e' jobs (fetching seen n ∷ ws) h = absurd (omega (arith, h))
rested_astray e e' jobs (running seen n id ∷ ws) h = absurd (omega (arith, h))
rested_astray e e' jobs (leaving seen ∷ ws) h = absurd (omega (arith, h))
rested_astray e e' jobs (returned ∷ ws) h =
    omega (arith, rested_astray e e' jobs ws (omega (arith, h)))

pub copies_at_rest :
    (n : ℕ)
    → (total gone (copies n (looking 0)) ≡ 0) × (total (pending 0) (copies n (looking 0)) ≡ 0)
copies_at_rest zero = (refl, refl)
copies_at_rest (suc n) =
    let (g, p) = copies_at_rest n in (omega (arith, g), omega (arith, p, late_self 0 0 refl))
