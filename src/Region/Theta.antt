-- ===== src/Region/Theta.antt =====
-- `PCAUtils` of include/qvcache/pca_utils.h: the hit threshold of each region and its discount, kept
-- by the code of the region. The projection of a vector, which Eigen computes, is a parameter.
pub mod Bounded
pub mod Regions
pub mod Tighten
pub mod Learn
use qvcache.Common.{
  ℕ, zero, suc, ◌+◌, ◌-◌, ◌<◌, List, [], ◌∷◌, ◌++◌, map, Bool, true, false, not, ◌&&◌, ◌||◌,
  if◌then◌else◌, ltb, leb, ◌==◌, Option, none, some, ◌>>=◌, find, put, erase, length, get_elem?,
  ℕ_discrete,
}
use qvcache.Floats.{Floats}
use qvcache.Region.Key.{cap, code, compute_region_key, Coordinate}
use qvcache.Region.Ball.{walk}

unfoldable pub code_discrete : Discrete (List ℕ)
code_discrete = hlevel ℕ_discrete

module _ (F : Floats) where
  open F use {Real, mul, le_real, eq_real, max_double, half_max, neg_infinity}

  -- The flag says whether the metric is COSINE.
  unfoldable pub uninitialized_theta : Bool → Real
  uninitialized_theta cosine = if cosine then neg_infinity else max_double

  unfoldable pub is_uninitialized_theta : Bool → Real → Bool
  is_uninitialized_theta cosine threshold =
      if cosine then eq_real threshold neg_infinity else le_real half_max threshold

  unfoldable pub reset_theta_entry : Bool → List (ℕ × Real) → List (ℕ × Real)
  unfolding uninitialized_theta
  reset_theta_entry cosine entry =
      let v = uninitialized_theta cosine in
      put ℕ_discrete 100 v (put ℕ_discrete 10 v (put ℕ_discrete 5 v (put ℕ_discrete 1 v entry)))

  unfoldable pub entry_has_live_theta : Bool → List (ℕ × Real) → Bool
  entry_has_live_theta cosine [] = false
  entry_has_live_theta cosine ((k, v) ∷ entry) =
      if not (is_uninitialized_theta cosine v) then true else entry_has_live_theta cosine entry

  -- The loop `kv.second *= alpha` over the learned thresholds of a region.
  unfoldable pub scale_entry : Bool → Real → List (ℕ × Real) → List (ℕ × Real)
  scale_entry cosine alpha [] = []
  scale_entry cosine alpha ((k, v) ∷ entry) =
      (k, (if not (is_uninitialized_theta cosine v) then mul v alpha else v))
      ∷ scale_entry cosine alpha entry

module _ (F : Floats) (Vec : Type 0) (project : Vec → List (Coordinate F)) where
  open F use {
    Real, zero_real, one_real, add, sub, mul, le_real, lt_real, eq_real, max_double, half_max,
    neg_infinity,
  }

  pub record PcaUtils : Type 0 where
    pub pca_dim : ℕ
    pub buckets_per_dim : ℕ
    pub is_cosine : Bool  -- metric == diskann::COSINE
    pub region_theta_map : List (List ℕ × List (ℕ × Real))
    pub region_discount_map : List (List ℕ × Real)
    pub region_insertion_order : List (List ℕ)
    pub max_regions : ℕ
    pub write_l1_radius : ℕ

  -- The constructor; `none` is the exception for too many dimensions.
  unfoldable pub init : ℕ → ℕ → Bool → ℕ → Option PcaUtils
  init pca_dim buckets_per_dim is_cosine max_regions =
      if ltb cap pca_dim
      then none
      else some (record {
        pca_dim = pca_dim;
        buckets_per_dim = buckets_per_dim;
        is_cosine = is_cosine;
        region_theta_map = [];
        region_discount_map = [];
        region_insertion_order = [];
        max_regions = max_regions;
        write_l1_radius = 1;
      })

  unfoldable pub set_write_l1_radius : PcaUtils → ℕ → PcaUtils
  set_write_l1_radius u r = record u { write_l1_radius = r }

  -- The code of the region that a vector lies in.
  unfoldable pub region : PcaUtils → Vec → List ℕ
  region u vec = code (compute_region_key F u.pca_dim u.buckets_per_dim (project vec))

  unfoldable pub invalidate_theta : PcaUtils → Option Vec → PcaUtils
  invalidate_theta u none = u
  invalidate_theta u (some vec) =
      let key = region u vec in
      elim (find code_discrete key u.region_theta_map) [
        | none ↦ u
        | some entry ↦ record u {
          region_theta_map =
              put code_discrete key (reset_theta_entry F u.is_cosine entry) u.region_theta_map;
          region_discount_map = put code_discrete key one_real u.region_discount_map;
        }
      ]

  -- A missing discount reads as 1.
  unfoldable pub discount : PcaUtils → List ℕ → Real
  discount u key = elim (find code_discrete key u.region_discount_map) [
    | none ↦ one_real
    | some d ↦ d
  ]

  unfoldable pub tighten_one_region_locked : Real → List ℕ → PcaUtils × ℕ → PcaUtils × ℕ
  unfolding discount
  tighten_one_region_locked alpha fine (u, n) = elim (find code_discrete fine u.region_theta_map) [
    | none ↦ (u, n)
    | some entry ↦
        if not (entry_has_live_theta F u.is_cosine entry) || le_real (discount u fine) alpha
        then (u, n)
        else (
          record u {
            region_theta_map =
                put code_discrete fine (scale_entry F u.is_cosine alpha entry) u.region_theta_map;
            region_discount_map = put code_discrete fine alpha u.region_discount_map;
          },
          n + 1,
        )
  ]

  -- The new state, and the number of regions that were tightened. A walk that overflows has no
  -- meaning in C++, and none here; the state is then left as it was.
  unfoldable pub tighten_theta_for_vector : PcaUtils → Option Vec → Real → PcaUtils × ℕ
  tighten_theta_for_vector u none alpha = (u, 0)
  tighten_theta_for_vector u (some vec) alpha =
      if le_real one_real alpha || le_real alpha zero_real
      then (u, 0)
      else (let key = region u vec in
          elim (walk u.buckets_per_dim (tighten_one_region_locked alpha) key 0 u.write_l1_radius
            (key, (u, 0))) [ none ↦ (u, 0) | some r ↦ r.1 ])

  -- The oldest region makes room for a new one.
  unfoldable pub evict_region : PcaUtils → PcaUtils
  evict_region u =
      if leb u.max_regions (length u.region_theta_map)
      then elim u.region_insertion_order [
        | [] ↦ u
        | oldest_key ∷ rest ↦ record u {
          region_insertion_order = rest;
          region_theta_map = erase code_discrete oldest_key u.region_theta_map;
          region_discount_map = erase code_discrete oldest_key u.region_discount_map;
        }
      ]
      else u

  unfoldable pub add_region : PcaUtils → List ℕ → PcaUtils
  add_region u key = record u {
    region_theta_map =
        put code_discrete key (reset_theta_entry F u.is_cosine []) u.region_theta_map;
    region_insertion_order = u.region_insertion_order ++ key ∷ [];
  }

  unfoldable pub lazy_init_region : PcaUtils → List ℕ → PcaUtils
  lazy_init_region u key = elim (find code_discrete key u.region_theta_map) [
    | some _ ↦ u
    | none ↦ add_region (evict_region u) key
  ]

  -- `region_theta_map[region]`, where `operator[]` reads a missing entry as the empty one.
  unfoldable pub thetas : PcaUtils → List ℕ → List (ℕ × Real)
  thetas u key = elim (find code_discrete key u.region_theta_map) [ none ↦ [] | some entry ↦ entry ]

  -- `region_theta_map[region][K]`: `operator[]` inserts 0.0 under a missing K.
  unfoldable pub touch_theta : PcaUtils → List ℕ → ℕ → PcaUtils × Real
  unfolding thetas
  touch_theta u key K = elim (find ℕ_discrete K (thetas u key)) [
    | some v ↦ (u, v)
    | none ↦ (
      record u {
        region_theta_map =
            put code_discrete key (put ℕ_discrete K zero_real (thetas u key)) u.region_theta_map;
      },
      zero_real,
    )
  ]

  -- The state after the call, and its answer. Reading `distances[K - 1]` past the end is a fault.
  unfoldable pub is_hit :
      PcaUtils → Vec → ℕ → Option (List Real) → ℕ → Real → Option (PcaUtils × Bool)
  is_hit u query K none num_vectors deviation_factor = some (u, false)
  is_hit u query K (some distances) num_vectors deviation_factor =
      if ltb num_vectors K || K == 0
      then some (u, false)
      else (let key = region u query in
          let (u', threshold) = touch_theta (lazy_init_region u key) key K in
          if is_uninitialized_theta F u'.is_cosine threshold
          then some (u', false)
          else elim (get_elem? distances (K - 1)) [
            | none ↦ none
            | some cache_distance ↦
                some (u', le_real cache_distance (mul (add one_real deviation_factor) threshold))
          ])

  unfoldable pub update_theta : PcaUtils → Vec → ℕ → Real → Real → PcaUtils
  update_theta u query K query_distance p =
      let key = region u query in
      let (u', current_theta) = touch_theta (lazy_init_region u key) key K in
      let theta =
        if is_uninitialized_theta F u'.is_cosine current_theta
        then query_distance
        else add (mul p query_distance) (mul (sub one_real p) current_theta) in
      record u' {
        region_theta_map =
            put code_discrete key (put ℕ_discrete K theta (thetas u' key)) u'.region_theta_map;
        region_discount_map = put code_discrete key one_real u'.region_discount_map;
      }

  unfoldable pub get_number_of_active_regions : PcaUtils → ℕ
  get_number_of_active_regions u = length u.region_theta_map
