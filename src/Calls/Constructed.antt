-- ===== src/Calls/Constructed.antt =====
-- A cache that the constructor of include/qvcache/qvcache.h has built is ready.
use qvcache.Common.{
  ℕ, zero, suc, ◌+◌, ◌/◌, ◌≤◌, ◌<◌, [], false, some, length, ◌≡◌, refl, sym, ap, subst, arith,
  ℕ_discrete,
}
use qvcache.Lru
use qvcache.Lru.{LruCache, access}
use qvcache.Lru.Invariant.{init-IsValid}
use qvcache.Cache.{Diskann, Cache}
use qvcache.InsertPool.{copies}
use qvcache.Cache.Admission.Ready.{IsTracking, IsReady, access-IsTracking}
use qvcache.Calls.{access_from, construct_shards}

length-copies : {A : Type 0} (n : ℕ) (x : A) → length (copies n x) ≡ n
length-copies zero x = refl
length-copies (suc n) x = ap suc (length-copies n x)

access_from-IsTracking :
    (shards i n : ℕ) (lru : LruCache ℕ)
    → i + n ≤ shards
    → IsTracking shards lru
    → (lru' : LruCache ℕ) × (access_from i n lru ≡ some lru') × IsTracking shards lru'
unfolding access_from
access_from-IsTracking shards i zero lru l h = (lru, refl, h)
access_from-IsTracking shards i (suc n) lru l h =
    let (moved, b, ran, tracking) = access-IsTracking shards lru i h (omega (arith, l)) in
    let (lru', ran', done) =
      access_from-IsTracking shards (suc i) n moved (omega (arith, l)) tracking in
    (lru', rw (ran, access_from) ran', done)

pub construct_shards-IsReady :
    (Vec : Type 0) (D : Diskann Vec) (n points : ℕ)
    → 0 < n
    → (c : Cache Vec D) × (construct_shards Vec D n points ≡ some c) × IsReady Vec D c
unfolding construct_shards Lru.init
construct_shards-IsReady Vec D zero points h = absurd (omega (arith, h))
construct_shards-IsReady Vec D (suc n) points h =
    let len = length-copies (suc n) (D.create (points / suc n)) in
    let (lru, ran, tracking) =
      access_from-IsTracking (suc n) 0 (suc n) (Lru.init (suc n)) (omega arith)
        record { valid = init-IsValid ℕ_discrete (suc n); positive = omega arith; tracked = tt } in
    (
      record {
        memory_indices = copies (suc n) (D.create (points / suc n));
        active_insert_index_id = 0;
        lru_cache = lru;
        max_points_per_index = points / suc n;
        number_of_mini_indexes = suc n;
        eviction_in_progress = false;
        admit_fifo = [];
        admit_set = [];
        deleted_ids = [];
        point_evictions = 0;
        tasks = [];
      },
      rw (ran, construct_shards) refl,
      record {
        tracking = subst (λ m. IsTracking m lru) (sym len) tracking;
        queued = tt;
        inside = omega (arith, len);
        shards = sym len;
      },
    )
