-- ===== src/Tests/Region.antt =====
-- include/qvcache/pca_utils.h on small keys and regions.
use qvcache.Common.{
  ℕ, ◌≤◌, ◌<◌, max, List, [], ◌∷◌, true, false, if◌then◌else◌, none, some, ◌≡◌, refl, arith, find,
  length, All, ℕ_discrete,
}
use qvcache.Region.Key
use qvcache.Region.Key.{RegionKey, Coordinate, compute_region_key, code, cap, key_eq, hash}
use qvcache.Region.Key.Code.{hash-key_eq}
use qvcache.Region.Key.Bucket.{buckets, compute_region_key-code}
use qvcache.Region.Ball.{walk}
use qvcache.Region.Ball.Exact.{near, count_visits, walk-near}
use qvcache.Region.Theta
use qvcache.Region.Theta.{PcaUtils, code_discrete}
use qvcache.Region.Theta.Bounded.{IsTracked}
use qvcache.Region.Theta.Regions
use qvcache.Region.Theta.Tighten.{told, tightened, tighten_theta_for_vector-told}
use qvcache.Region.Theta.Learn.{theta_read, hit_after_miss, theta_of_first_miss}
use qvcache.Tests.Tenths.{tenths}

-- A vector is its one projected coordinate, in tenths, over the extent from 0 to 4.
abbrev pub project : ℕ → List (Coordinate tenths)
project x = record { val = x; minv = 0; maxv = 40 } ∷ []

key_a : RegionKey
key_a = compute_region_key tenths 1 4 (project 15)

-- Coordinate 1.5 of 4 lies in bucket 1 of 4.
key_a-code : code key_a ≡ 1 ∷ []
unfolding key_a compute_region_key Key.bucket
key_a-code = refl

-- What a run of these tests computes with.
all_steps : Unit {0}
unfolding compute_region_key Key.bucket Theta.region Theta.touch_theta Theta.lazy_init_region
    Theta.thetas Theta.is_uninitialized_theta Theta.uninitialized_theta find code_discrete
    ℕ_discrete
all_steps = tt

abbrev small_key : ℕ → RegionKey
small_key x = record { bytes = 1 ∷ x ∷ []; len = 1 }

hash-key_eq_example : hash (small_key 2) ≡ hash (small_key 3)
unfolding key_eq
hash-key_eq_example = hash-key_eq (small_key 2) (small_key 3) (omega arith) (omega arith) refl

compute_region_key-code_example :
    let key = compute_region_key tenths 1 4 (project 15) in
    (key.len ≡ 1)
    × (length key.bytes ≡ cap)
    × (code key ≡ buckets tenths 4 (project 15))
    × All (λ y. y < 4) (code key)
compute_region_key-code_example =
    compute_region_key-code tenths 1 4 (project 15) (omega arith) refl (omega arith) (omega arith)

walk-near_example :
    walk 4 (count_visits (1 ∷ 2 ∷ [])) (1 ∷ 1 ∷ []) 0 1 (1 ∷ 1 ∷ [], 0)
    ≡ some (1 ∷ 1 ∷ [], (if near 4 (1 ∷ 2 ∷ []) (1 ∷ 1 ∷ []) 1 then 1 else 0))
walk-near_example =
    walk-near 4 1 (1 ∷ 1 ∷ []) (1 ∷ 2 ∷ []) (omega arith, omega arith)
      (omega arith, (omega arith, tt))

abbrev Pca : Type 0
Pca = PcaUtils tenths ℕ project

-- One learned region, of bucket 1.
abbrev pub learned : Pca
learned = record {
  pca_dim = 1;
  buckets_per_dim = 4;
  is_cosine = false;
  region_theta_map = (1 ∷ [], (1, 2000000) ∷ (5, 30) ∷ []) ∷ [];
  region_discount_map = (1 ∷ [], 10) ∷ [];
  region_insertion_order = (1 ∷ []) ∷ [];
  max_regions = 1;
  write_l1_radius = 1;
}

learned-IsTracked : IsTracked tenths ℕ project learned
unfolding find
learned-IsTracked = record {
  ordered = refl;
  distinct = (refl, tt);
  discounted = λ k g. ground arith;
  bounded = omega arith;
}

-- A hit test in a new region pushes the old one out.
abbrev calls : List (Regions.Call tenths ℕ project)
calls =
    Regions.hit_test 35 5 (some (20 ∷ 20 ∷ 20 ∷ 20 ∷ 20 ∷ [])) 9 1
    ∷ Regions.learn 35 5 25 10
    ∷ Regions.tighten (some 35) 8
    ∷ []

run-IsTracked_example :
    (u' : Pca) × (Regions.run tenths ℕ project learned calls ≡ some u')
    × IsTracked tenths ℕ project u'
    × (Theta.get_number_of_active_regions tenths ℕ project u' ≤ max 1 u'.max_regions)
run-IsTracked_example =
    Regions.run-IsTracked tenths ℕ project calls learned learned-IsTracked
      (omega arith, (tt, (tt, tt)))

tighten_theta_for_vector-told_example :
    told tenths ℕ project
      (Theta.tighten_theta_for_vector tenths ℕ project learned (some 25) 8).0
      (1 ∷ [])
    ≡ tightened tenths ℕ project
        (near 4 (1 ∷ []) (Theta.region tenths ℕ project learned 25) 1)
        false
        8
        (told tenths ℕ project learned (1 ∷ []))
tighten_theta_for_vector-told_example =
    tighten_theta_for_vector-told tenths ℕ project learned 25 8 (1 ∷ []) (omega arith, omega arith)
      refl refl

-- K = 1 is not learned yet in bucket 1, and bucket 3 is new.
fresh_15 :
    Theta.is_uninitialized_theta tenths false (theta_read tenths ℕ project learned 15 1) ≡ true
unfolding all_steps
fresh_15 = refl

new_35 :
    find code_discrete (Theta.region tenths ℕ project learned 35) learned.region_theta_map ≡ none
unfolding all_steps
new_35 = refl

hit_after_miss_example :
    Theta.is_hit tenths ℕ project
      (Theta.update_theta tenths ℕ project learned 15 1 20 10)
      15
      1
      (some (21 ∷ []))
      3
      1
    ≡ some (Theta.update_theta tenths ℕ project learned 15 1 20 10, true)
unfolding Theta.is_uninitialized_theta
hit_after_miss_example =
    hit_after_miss tenths ℕ project learned 15 1 20 21 10 1 (21 ∷ []) 3 fresh_15 refl (omega arith)
      (omega arith) refl

theta_of_first_miss_example :
    find ℕ_discrete 20 (
      Theta.thetas tenths ℕ project
        (Theta.update_theta tenths ℕ project learned 35 20 30 9)
        (Theta.region tenths ℕ project learned 35))
    ≡ some 27
unfolding Theta.is_uninitialized_theta Theta.uninitialized_theta
theta_of_first_miss_example =
    theta_of_first_miss tenths ℕ project learned 35 20 30 9 new_35 refl refl
