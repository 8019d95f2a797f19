-- ===== src/Region/Theta/Learn.antt =====
-- What a miss teaches a region in include/qvcache/pca_utils.h, and what the next hit test makes of it.
use qvcache.Common.{
  ℕ, ◌-◌, ◌≤◌, ◌<◌, List, [], Bool, true, false, ◌||◌, if◌then◌else◌, none, some, find, put, ◌≡◌,
  refl, ap, ◌∙◌, arith, find-put_self, ◌==◌, ℕ_discrete, get_elem?,
}
use qvcache.Floats.{Floats}
use qvcache.Region.Key.{Coordinate}
use qvcache.Region.Theta.{
  PcaUtils, code_discrete, region, uninitialized_theta, is_uninitialized_theta, reset_theta_entry,
  evict_region, add_region, lazy_init_region, thetas, touch_theta, update_theta, is_hit,
}

module _ (F : Floats) (Vec : Type 0) (project : Vec → List (Coordinate F)) where
  open F use {Real, zero_real, one_real, add, sub, mul, le_real}

  abbrev Pca : Type 0
  Pca = PcaUtils F Vec project

  -- The threshold that a hit test or an update reads for a vector and a number of neighbours.
  abbrev pub theta_read : Pca → Vec → ℕ → Real
  theta_read u q K =
      (touch_theta F Vec project (lazy_init_region F Vec project u (region F Vec project u q))
        (region F Vec project u q) K).1

  -- The threshold that a miss at distance `d` leaves behind.
  abbrev pub theta_after : Bool → Real → Real → Real → Real
  theta_after cosine theta d p =
      if is_uninitialized_theta F cosine theta
      then d
      else add (mul p d) (mul (sub one_real p) theta)

  -- The parameters that no operation changes.
  abbrev fixed : Pca → ℕ × ℕ × Bool
  fixed u = (u.pca_dim, u.buckets_per_dim, u.is_cosine)

  evict_region-fixed : (u : Pca) → fixed (evict_region F Vec project u) ≡ fixed u
  unfolding evict_region
  evict_region-fixed u = ground arith

  lazy_init_region-fixed :
      (u : Pca) (key : List ℕ) → fixed (lazy_init_region F Vec project u key) ≡ fixed u
  unfolding lazy_init_region add_region
  lazy_init_region-fixed u key = ground (arith, evict_region-fixed u)

  touch_theta-fixed :
      (u : Pca) (key : List ℕ) (K : ℕ) → fixed (touch_theta F Vec project u key K).0 ≡ fixed u
  unfolding touch_theta
  touch_theta-fixed u key K = ground arith

  region-fixed :
      (u v : Pca) (q : Vec)
      → fixed u ≡ fixed v
      → region F Vec project u q ≡ region F Vec project v q
  unfolding region
  region-fixed u v q e = ground arith

  thetas-found :
      (u : Pca) (key : List ℕ) (entry : List (ℕ × Real))
      → find code_discrete key u.region_theta_map ≡ some entry
      → thetas F Vec project u key ≡ entry
  unfolding thetas
  thetas-found u key entry e = ground arith

  touch_theta-found :
      (u : Pca) (key : List ℕ) (K : ℕ) (v : Real)
      → find ℕ_discrete K (thetas F Vec project u key) ≡ some v
      → touch_theta F Vec project u key K ≡ (u, v)
  unfolding touch_theta
  touch_theta-found u key K v e = rw (e, touch_theta)

  lazy_init_region-found :
      (u : Pca) (key : List ℕ) (entry : List (ℕ × Real))
      → find code_discrete key u.region_theta_map ≡ some entry
      → lazy_init_region F Vec project u key ≡ u
  unfolding lazy_init_region
  lazy_init_region-found u key entry e = rw (e, lazy_init_region)

  -- The state in which an update stores its threshold.
  abbrev readied : Pca → Vec → ℕ → Pca
  readied u q K =
      (touch_theta F Vec project (lazy_init_region F Vec project u (region F Vec project u q))
        (region F Vec project u q) K).0

  readied-fixed : (u : Pca) (q : Vec) (K : ℕ) → fixed (readied u q K) ≡ fixed u
  readied-fixed u q K =
      touch_theta-fixed (lazy_init_region F Vec project u (region F Vec project u q))
        (region F Vec project u q) K
      ∙ lazy_init_region-fixed u (region F Vec project u q)

  -- An update stores the threshold that it computes.
  find-update_theta :
      (u : Pca) (q : Vec) (K : ℕ) (d p : Real)
      → find code_discrete
          (region F Vec project u q)
          (update_theta F Vec project u q K d p).region_theta_map
        ≡ some (
            put ℕ_discrete K
              (theta_after u.is_cosine (theta_read u q K) d p)
              (thetas F Vec project (readied u q K) (region F Vec project u q)))
  unfolding update_theta
  find-update_theta u q K d p =
      find-put_self code_discrete (region F Vec project u q) _ (readied u q K).region_theta_map
      ∙ ap
          (λ (c : Bool). some (
            put ℕ_discrete K (theta_after c (theta_read u q K) d p)
              (thetas F Vec project (readied u q K) (region F Vec project u q))))
          (ap (λ (f : ℕ × ℕ × Bool). f.2) (readied-fixed u q K))

  thetas-update_theta :
      (u : Pca) (q : Vec) (K : ℕ) (d p : Real)
      → find ℕ_discrete K
          (thetas F Vec project (update_theta F Vec project u q K d p) (region F Vec project u q))
        ≡ some (theta_after u.is_cosine (theta_read u q K) d p)
  thetas-update_theta u q K d p =
      ap (find ℕ_discrete K) (
        thetas-found (update_theta F Vec project u q K d p) (region F Vec project u q) _
          (find-update_theta u q K d p))
      ∙ find-put_self ℕ_discrete K _ _

  update_theta-fixed :
      (u : Pca) (q : Vec) (K : ℕ) (d p : Real)
      → fixed (update_theta F Vec project u q K d p) ≡ fixed u
  unfolding update_theta
  update_theta-fixed u q K d p = readied-fixed u q K

  find-reset_theta_entry :
      (cosine : Bool) (K : ℕ)
      → find ℕ_discrete K (reset_theta_entry F cosine []) ≡ (
          if K == 1 || K == 5 || K == 10 || K == 100
          then some (uninitialized_theta F cosine)
          else none)
  unfolding reset_theta_entry find put
  find-reset_theta_entry cosine K = ground arith

  lazy_init_region-new :
      (u : Pca) (key : List ℕ)
      → find code_discrete key u.region_theta_map ≡ none
      → lazy_init_region F Vec project u key
        ≡ add_region F Vec project (evict_region F Vec project u) key
  unfolding lazy_init_region
  lazy_init_region-new u key e = rw (e, lazy_init_region)

  thetas-add_region :
      (u : Pca) (key : List ℕ)
      → thetas F Vec project (add_region F Vec project u key) key
        ≡ reset_theta_entry F u.is_cosine []
  unfolding add_region
  thetas-add_region u key =
      thetas-found (add_region F Vec project u key) key (reset_theta_entry F u.is_cosine [])
        (find-put_self code_discrete key (reset_theta_entry F u.is_cosine []) u.region_theta_map)

  touch_theta-value :
      (u : Pca) (key : List ℕ) (K : ℕ) (known : Bool) (v : Real)
      → find ℕ_discrete K (thetas F Vec project u key) ≡ (if known then some v else none)
      → (touch_theta F Vec project u key K).1 ≡ (if known then v else zero_real)
  unfolding touch_theta
  touch_theta-value u key K true v e = rw (e, touch_theta)
  touch_theta-value u key K false v e = rw (e, touch_theta)

  theta_read-new :
      (u : Pca) (q : Vec) (K : ℕ)
      → find code_discrete (region F Vec project u q) u.region_theta_map ≡ none
      → theta_read u q K ≡ (
          if K == 1 || K == 5 || K == 10 || K == 100
          then uninitialized_theta F u.is_cosine
          else zero_real)
  theta_read-new u q K new =
      let key = region F Vec project u q in
      let v = evict_region F Vec project u in
      rw (lazy_init_region-new u key new, theta_read)
        (touch_theta-value (add_region F Vec project v key) key K
          (K == 1 || K == 5 || K == 10 || K == 100) (uninitialized_theta F u.is_cosine)
          (ap (find ℕ_discrete K) (thetas-add_region v key)
            ∙ find-reset_theta_entry v.is_cosine K
            ∙ rw (ap (λ (f : ℕ × ℕ × Bool). f.2) (evict_region-fixed u)) refl))

  -- In a region that was not learned, a miss stores the distance itself for the four values of K that
  -- are initialised; for any other K it averages the distance with the 0.0 that `operator[]` inserts.
  pub theta_of_first_miss :
      (u : Pca) (q : Vec) (K : ℕ) (d p : Real)
      → find code_discrete (region F Vec project u q) u.region_theta_map ≡ none
      → is_uninitialized_theta F u.is_cosine (uninitialized_theta F u.is_cosine) ≡ true
      → is_uninitialized_theta F u.is_cosine zero_real ≡ false
      → find ℕ_discrete K
          (thetas F Vec project (update_theta F Vec project u q K d p) (region F Vec project u q))
        ≡ some (
            if K == 1 || K == 5 || K == 10 || K == 100
            then d
            else add (mul p d) (mul (sub one_real p) zero_real))
  theta_of_first_miss u q K d p new start live =
      thetas-update_theta u q K d p ∙ ap some (rw (theta_read-new u q K new) (ground arith))

  is_hit_learned :
      (u : Pca) (q : Vec) (K : ℕ) (theta d dev : Real) (ds : List Real) (n : ℕ)
      (entry : List (ℕ × Real))
      → find code_discrete (region F Vec project u q) u.region_theta_map ≡ some entry
      → find ℕ_discrete K (thetas F Vec project u (region F Vec project u q)) ≡ some theta
      → is_uninitialized_theta F u.is_cosine theta ≡ false
      → 0 < K
      → K ≤ n
      → get_elem? ds (K - 1) ≡ some d
      → is_hit F Vec project u q K (some ds) n dev
        ≡ some (u, le_real d (mul (add one_real dev) theta))
  unfolding is_hit
  is_hit_learned u q K theta d dev ds n entry there known live pos enough at =
      let key = region F Vec project u q in
      let read : touch_theta F Vec project (lazy_init_region F Vec project u key) key K
          ≡ (u, theta) =
        ap (λ s. touch_theta F Vec project s key K) (lazy_init_region-found u key entry there)
        ∙ touch_theta-found u key K theta known in
      ground (arith, read)

  -- After a miss at distance `d`, for a vector and a K whose threshold read as uninitialised, the next
  -- hit test for the same vector and K leaves the state alone and hits exactly when the K-th distance
  -- is within the tolerance around `d`, if `d` is not itself an uninitialised value, K is positive and
  -- the cache has at least K vectors.
  pub hit_after_miss :
      (u : Pca) (q : Vec) (K : ℕ) (d d' p dev : Real) (ds : List Real) (n : ℕ)
      → is_uninitialized_theta F u.is_cosine (theta_read u q K) ≡ true
      → is_uninitialized_theta F u.is_cosine d ≡ false
      → 0 < K
      → K ≤ n
      → get_elem? ds (K - 1) ≡ some d'
      → is_hit F Vec project (update_theta F Vec project u q K d p) q K (some ds) n dev
        ≡ some (update_theta F Vec project u q K d p, le_real d' (mul (add one_real dev) d))
  hit_after_miss u q K d d' p dev ds n fresh learned pos enough at =
      let key = region F Vec project u q in
      let v = update_theta F Vec project u q K d p in
      let same : region F Vec project v q ≡ key =
        region-fixed v u q (update_theta-fixed u q K d p) in
      let stored : find ℕ_discrete K (thetas F Vec project v key) ≡ some d =
        thetas-update_theta u q K d p ∙ ap some (rw fresh) in
      let entry =
        put ℕ_discrete K (theta_after u.is_cosine (theta_read u q K) d p)
          (thetas F Vec project (readied u q K) key) in
      is_hit_learned v q K d d' dev ds n entry (rw same (find-update_theta u q K d p))
        (rw same stored)
        (rw (ap (λ (f : ℕ × ℕ × Bool). f.2) (update_theta-fixed u q K d p)) learned) pos enough at
